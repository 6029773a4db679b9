-- ===== src/Prelude/Texts/Literals.antt =====
-- Words that are literals, or a literal key with a value.
use Prim.Native.Nat.{ℕ}
use mathlib.Core.Path.{◌≡◌, ap, ◌∙◌, sym}
use mathlib.Core.Logic.{inl, inr}
use mathlib.Core.Bool.{Bool, true, false, not, ◌&&◌, ◌||◌}
use mathlib.Core.List.{[], ◌∷◌, ◌++◌}
use inter_fire.Prelude.Tests.{Bool-cases}
use inter_fire.Prelude.Lists.{All, any}
use inter_fire.Prelude.Texts.{Text, is_whitespace}
use inter_fire.Prelude.Texts.Fields.{IsWord}
use inter_fire.Prelude.Texts.Split.{All-append}

-- No character is white space: what a value must be, since the fields are split at white space.
abbrev pub IsValue : Text → Type 0
IsValue = All (λ c. is_whitespace c ≡ false)

-- The test of a literal
unfoldable pub all_values : Text → Bool
all_values [] = true
all_values (c ∷ s) = not (is_whitespace c) && all_values s

pub all_values-IsValue : (s : Text) → all_values s ≡ true → IsValue s
unfolding all_values
all_values-IsValue [] h = tt
all_values-IsValue (c ∷ s) h = elim (Bool-cases (is_whitespace c)) [
  | inl e ↦ let no : false ≡ true = sym (ap (λ b. not b && all_values s) e) ∙ h in cc
  | inr e ↦ (e, all_values-IsValue s (sym (ap (λ b. not b && all_values s) e) ∙ h))
]

abbrev pub is_key : Text → Bool
is_key [] = false
is_key (c ∷ s) = all_values (c ∷ s)

-- A literal key with a value
pub field-IsWord : (key value : Text) → is_key key ≡ true → IsValue value → IsWord (key ++ value)
field-IsWord [] value h v = cc
field-IsWord (c ∷ key) value h v = (
  (λ e. cc),
  All-append (λ c. is_whitespace c ≡ false) (c ∷ key) value (all_values-IsValue (c ∷ key) h) v,
)

pub literal-IsWord : (s : Text) → is_key s ≡ true → IsWord s
literal-IsWord [] h = cc
literal-IsWord (c ∷ s) h = ((λ e. cc), all_values-IsValue (c ∷ s) h)

-- What no character of a text satisfies
pub none_satisfies : (p : ℕ → Bool) (s : Text) → any p s ≡ false → All (λ c. p c ≡ false) s
none_satisfies p [] h = tt
none_satisfies p (c ∷ s) h = elim (Bool-cases (p c)) [
  | inl e ↦ let no : true ≡ false = sym (ap (λ b. b || any p s) e) ∙ h in cc
  | inr e ↦ (e, none_satisfies p s (sym (ap (λ b. b || any p s) e) ∙ h))
]
