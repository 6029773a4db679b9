-- ===== src/Prelude/Texts/Decimal.antt =====
-- Decimal numbers: `to_string` of an unsigned integer, and `str::parse` into one of at most `top`.
use Prim.Native.Nat.{ℕ, zero, suc, ◌+◌, ◌-◌, ◌*◌, ◌/◌, ◌%◌, ◌≤◌, ◌<◌}
use mathlib.Core.Path.{◌≡◌, refl, ap, sym, ◌∙◌}
use mathlib.Core.Logic.{inl, inr, ◌≢◌}
use mathlib.Core.Bool.{Bool, ◌&&◌}
use mathlib.Core.List.{List, [], ◌∷◌, ◌++◌}
use mathlib.Core.Option.{Option, none, some}
use native.Mathlib.Omega.{arith}
use inter_fire.Prelude.Tests.{if◌then◌else◌, nat_eq, leb, ltb, Bool-cases}

show_fuel : ℕ → ℕ → List ℕ
show_fuel zero n = []
show_fuel (suc f) n =
    let high = show_fuel f (n / 10) ++ (b'0' + n % 10) ∷ [] in
    if ltb n 10 then (b'0' + n) ∷ [] else high

unfoldable pub show_nat : ℕ → List ℕ
unfolding show_fuel
show_nat n = show_fuel (suc n) n

-- One digit: `checked_mul` and `checked_add` fail above `top`.
digit : ℕ → ℕ → ℕ → Option ℕ
digit top acc c =
    if leb b'0' c && leb c b'9' && leb (acc * 10 + (c - b'0')) top
    then some (acc * 10 + (c - b'0'))
    else none

digits : ℕ → ℕ → List ℕ → Option ℕ
digits top acc [] = some acc
digits top acc (c ∷ s) = elim (digit top acc c) [ none ↦ none | some acc' ↦ digits top acc' s ]

-- One leading `+` is allowed, an empty text and a lone sign are not.
unfoldable pub parse_uint : ℕ → List ℕ → Option ℕ
unfolding digits digit
parse_uint top [] = none
parse_uint top (c ∷ []) = digits top 0 (c ∷ [])
parse_uint top (c ∷ d ∷ s) =
    if nat_eq c b'+' then digits top 0 (d ∷ s) else digits top 0 (c ∷ d ∷ s)

digits-push :
    (top acc n c m : ℕ) (s : List ℕ)
    → digits top acc s ≡ some n
    → digit top n c ≡ some m
    → digits top acc (s ++ c ∷ []) ≡ some m
unfolding digits
digits-push top acc n c m [] h k = ground arith
digits-push top acc n c m (d ∷ s) h k = go (λ a. digits-push top a n c m s) (digit top acc d) h
  where
    go :
        ((a : ℕ)
          → digits top a s ≡ some n
          → digit top n c ≡ some m
          → digits top a (s ++ c ∷ []) ≡ some m)
        → (o : Option ℕ) → (elim o [ none ↦ none | some acc' ↦ digits top acc' s ]) ≡ some n
        → (elim o [ none ↦ none | some acc' ↦ digits top acc' (s ++ c ∷ []) ]) ≡ some m
    go rec none e = ground arith
    go rec (some a) e = rec a e k

digits-show_fuel : (top f n : ℕ) → n < f → n ≤ top → digits top 0 (show_fuel f n) ≡ some n
unfolding show_fuel
digits-show_fuel top zero n h k = elim h [ ]
digits-show_fuel top (suc f) n h k = elim (Bool-cases (ltb n 10)) [
  | inl small ↦ rw small (unfold digits digit in ground arith)
  | inr big ↦ rw big (
      digits-push top 0 (n / 10) (b'0' + n % 10) n (show_fuel f (n / 10))
        (digits-show_fuel top f (n / 10) (ground arith) (ground arith))
        (unfold digit in ground arith))
]

parse_uint-digits :
    (top n : ℕ) (s : List ℕ) → digits top 0 s ≡ some n → s ≢ [] → parse_uint top s ≡ some n
unfolding parse_uint
parse_uint-digits top n [] h ne = absurd (ne refl)
parse_uint-digits top n (c ∷ []) h ne = h
parse_uint-digits top n (c ∷ d ∷ s) h ne = ground arith

append-ne-nil {ℓ} : {A : Type ℓ} (s : List A) (c : A) → s ++ c ∷ [] ≢ []
append-ne-nil [] c = cc
append-ne-nil (d ∷ s) c = cc

show_fuel-ne-nil : (f n : ℕ) → show_fuel (suc f) n ≢ []
unfolding show_fuel
show_fuel-ne-nil f n = elim (Bool-cases (ltb n 10)) [
  | inl small ↦ rw small (cc)
  | inr big ↦ rw big (append-ne-nil (show_fuel f (n / 10)) (b'0' + n % 10))
]

-- Printing a number that fits and parsing it gives it back.
pub parse_uint-show_nat : (top n : ℕ) → n ≤ top → parse_uint top (show_nat n) ≡ some n
unfolding show_nat
parse_uint-show_nat top n h =
    parse_uint-digits top n (show_fuel (suc n) n) (digits-show_fuel top (suc n) n (omega arith) h)
      (show_fuel-ne-nil n n)

abbrev pub IsDigits : List ℕ → Type 0
IsDigits [] = Unit
IsDigits (c ∷ s) = (b'0' ≤ c) × (c ≤ b'9') × IsDigits s

push-IsDigits : (s : List ℕ) (c : ℕ) → IsDigits s → b'0' ≤ c → c ≤ b'9' → IsDigits (s ++ c ∷ [])
push-IsDigits [] c h low high = (low, high, tt)
push-IsDigits (d ∷ s) c h low high = (h.0, h.1, push-IsDigits s c h.2 low high)

show_fuel-IsDigits : (f n : ℕ) → IsDigits (show_fuel f n)
unfolding show_fuel
show_fuel-IsDigits zero n = tt
show_fuel-IsDigits (suc f) n = elim (Bool-cases (ltb n 10)) [
  | inl small ↦ rw small (omega arith, ground arith, tt)
  | inr big ↦ rw big (
      push-IsDigits (show_fuel f (n / 10)) (b'0' + n % 10) (show_fuel-IsDigits f (n / 10))
        (omega arith) (omega arith))
]

pub show_nat-IsDigits : (n : ℕ) → IsDigits (show_nat n)
unfolding show_nat
show_nat-IsDigits n = show_fuel-IsDigits (suc n) n

digits-le : (top acc n : ℕ) (s : List ℕ) → acc ≤ top → digits top acc s ≡ some n → n ≤ top
unfolding digits
digits-le top acc n [] h e = ground arith
digits-le top acc n (c ∷ s) h e =
    go (λ a k. digits-le top a n s k) (digit top acc c) (λ a k. unfold digit in ground arith) e
  where
    go :
        ((a : ℕ) → a ≤ top → digits top a s ≡ some n → n ≤ top)
        → (o : Option ℕ) → ((a : ℕ) → o ≡ some a → a ≤ top)
        → (elim o [ none ↦ none | some acc' ↦ digits top acc' s ]) ≡ some n
        → n ≤ top
    go rec none fits k = absurd (ground (arith, k))
    go rec (some a) fits k = rec a (fits a refl) k

-- A number that is read fits.
pub parse_uint-le : (top n : ℕ) (s : List ℕ) → parse_uint top s ≡ some n → n ≤ top
unfolding parse_uint
parse_uint-le top n [] e = absurd (ground (arith, e))
parse_uint-le top n (c ∷ []) e = digits-le top 0 n (c ∷ []) (omega arith) e
parse_uint-le top n (c ∷ d ∷ s) e = elim (Bool-cases (nat_eq c b'+')) [
  | inl p ↦ digits-le top 0 n (d ∷ s) (omega arith) (sym (branch p) ∙ e)
  | inr p ↦ digits-le top 0 n (c ∷ d ∷ s) (omega arith) (sym (branch p) ∙ e)
]
  where
    branch :
        {b : Bool}
        → nat_eq c b'+' ≡ b
        → (if nat_eq c b'+' then digits top 0 (d ∷ s) else digits top 0 (c ∷ d ∷ s))
          ≡ (if b then digits top 0 (d ∷ s) else digits top 0 (c ∷ d ∷ s))
    branch p = ap (λ b. if b then digits top 0 (d ∷ s) else digits top 0 (c ∷ d ∷ s)) p

pub show_nat-ne-nil : (n : ℕ) → show_nat n ≢ []
unfolding show_nat
show_nat-ne-nil n = show_fuel-ne-nil n n
