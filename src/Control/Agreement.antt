-- ===== src/Control/Agreement.antt =====
-- The start of the queue and every later change of a mode decide on the same table.
use inter_fire.Prelude.{
  ℕ, ◌≡◌, refl, inl, inr, Bool, not, ◌||◌, ◌&&◌, List, [], ◌∷◌, any, if◌then◌else◌, Bool-cases,
}
use inter_fire.Traffic.{
  TrafficPreference, EnforcementMode, unrestricted, out, in_bound, all, is_blocked, wants_out,
}
use inter_fire.Nft.{
  TrafficCompose, Table, Runs, install_composed, install_block, apply_modes, compose_traffic_script,
  is_active, no_users, is_out, output_rules, input_rules, user_rules,
}
use inter_fire.Control.{reapply}

abbrev composed : TrafficPreference → List (ℕ × TrafficPreference) → Bool → Bool → TrafficCompose
composed machine users rules_active queue_bound = record {
  machine = machine;
  users = users;
  rules_active = rules_active && not (wants_out machine);
  queue_bound = queue_bound;
}

-- The shortcut for a machine that blocks the outbound direction with no users is no other table.
install_block_lem :
    (runs : Runs) (machine : TrafficPreference) (users : List (ℕ × TrafficPreference))
    (active bound : Bool) (table : Table)
    → (if is_out machine && no_users users
        then (install_block runs table).1
        else (install_composed runs (composed machine users active bound) table).1)
      ≡ (install_composed runs (composed machine users active bound) table).1
unfolding install_block install_composed compose_traffic_script output_rules input_rules user_rules
install_block_lem runs out [] active bound table = refl
install_block_lem runs out (u ∷ users) active bound table = refl
install_block_lem runs unrestricted users active bound table = refl
install_block_lem runs in_bound users active bound table = refl
install_block_lem runs all users active bound table = refl

-- Binding the queue and changing a mode lead to one table: for every combination of the machine's and the users' preferences, the rules mode and the state of the queue, and whatever the runs of `nft` come to, `apply_modes` leaves the table that `reapply_table` leaves.
pub apply_modes-reapply :
    (runs : Runs) (machine : TrafficPreference) (users : List (ℕ × TrafficPreference))
    (rules : EnforcementMode) (bound : Bool) (table : Table)
    → apply_modes runs machine users rules bound table
      ≡ (reapply runs machine users rules bound table).1
unfolding apply_modes reapply
apply_modes-reapply runs machine users rules bound table =
    elim (Bool-cases (is_blocked machine || any (λ u. is_blocked u.1) users)) [
      | inl e ↦ rw e (install_block_lem runs machine users (is_active rules) bound table)
      | inr e ↦ elim (Bool-cases (is_active rules)) [
        | inl f ↦ elim (Bool-cases bound) [ inl g ↦ rw (e, f, g) refl | inr g ↦ rw (e, f, g) refl ]
        | inr f ↦ rw (e, f) refl
      ]
    ]
