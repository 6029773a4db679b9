-- ===== src/Process/Stat.antt =====
-- The start time does not depend on the command name, whatever that holds.
use inter_fire.Prelude.{
  ℕ, ◌≡◌, refl, false, none, some, [], ◌∷◌, ◌++◌, arith, Text, eq_nat, nat_eq_iff, contains,
}
use inter_fire.Process.{after_last, parse_start_ticks}

after_last-none : (sep : ℕ) (s : Text) → contains sep s ≡ false → after_last sep s ≡ none
unfolding after_last
after_last-none sep [] h = refl
after_last-none sep (c ∷ s) h =
    ground (arith, after_last-none sep s, nat_eq_iff sep c, nat_eq_iff c sep)

pub after_last-append :
    (sep : ℕ) (before s : Text)
    → contains sep s ≡ false
    → after_last sep (before ++ sep ∷ s) ≡ some s
unfolding after_last
after_last-append sep [] s h = ground (arith, after_last-none sep s h, nat_eq_iff sep sep)
after_last-append sep (c ∷ before) s h = ground (arith, after_last-append sep before s h)

-- Two records of `/proc/<pid>/stat` with the same fields behind the closing parenthesis have the same
-- start time, if no parenthesis closes among the fields: spaces and parentheses in the command name
-- change nothing.
pub parse_start_ticks_comm :
    (before before' fields : Text)
    → contains b')' fields ≡ false
    → parse_start_ticks (before ++ b')' ∷ fields) ≡ parse_start_ticks (before' ++ b')' ∷ fields)
unfolding parse_start_ticks
parse_start_ticks_comm before before' fields h =
    rw (after_last-append b')' before fields h, after_last-append b')' before' fields h)
