-- ===== src/Prelude/Texts.antt =====
-- Text as the list of its code points, with the operations of Rust's `str` that the daemon uses.
-- For ASCII text the bytes are the code points.
mod Decimal
pub mod Fields
pub mod Split
pub mod Replace
pub mod Literals
pub use Decimal.*
unfoldable pub use Decimal.{show_nat, parse_uint}
use Prim.Native.Char.{code}
use Prim.Native.String.{String}
use Prim.Native.Nat.{ℕ, zero, suc, ◌+◌, ◌≤◌}
use mathlib.Core.Path.{◌≡◌, refl}
use mathlib.Core.Logic.{◌↔◌}
use mathlib.Core.Bool.{Bool, true, false, ◌&&◌, ◌||◌}
use mathlib.Core.List.{List, [], ◌∷◌, ◌++◌, reverse}
use mathlib.Core.Option.{Option, none, some}
use native.Mathlib.Omega.{arith}
use inter_fire.Prelude.Lists.{drop, length}
use inter_fire.Prelude.Tests.{if◌then◌else◌, Eq, nat_eq, nat_eq_iff, leb}

abbrev pub Text : Type 0
Text = List ℕ

-- A literal: `String` has its own `[]` and `∷`.
abbrev pub lit : String → Text
lit String.[] = []
lit (String.◌∷◌ c s) = code c ∷ lit s

unfoldable pub text_eq : Text → Text → Bool
text_eq [] [] = true
text_eq (c ∷ s) (d ∷ t) = nat_eq c d && text_eq s t
text_eq _ _ = false

pub text_eq_iff : (s t : Text) → (text_eq s t ≡ true) ↔ (s ≡ t)
unfolding text_eq
text_eq_iff [] [] = ground arith
text_eq_iff [] (d ∷ t) = ground arith
text_eq_iff (c ∷ s) [] = ground arith
text_eq_iff (c ∷ s) (d ∷ t) = ground (arith, text_eq_iff s t)

instance abbrev pub eq_text : Eq Text
eq_text = record { beq = text_eq; beq_iff = text_eq_iff }

-- `str::strip_prefix`, `str::starts_with`
unfoldable pub strip_prefix : Text → Text → Option Text
strip_prefix [] s = some s
strip_prefix (c ∷ p) [] = none
strip_prefix (c ∷ p) (d ∷ s) = if nat_eq c d then strip_prefix p s else none

pub strip_prefix-append : (p s : Text) → strip_prefix p (p ++ s) ≡ some s
unfolding strip_prefix
strip_prefix-append [] s = refl
strip_prefix-append (c ∷ p) s = ground (arith, strip_prefix-append p s)

unfoldable pub starts_with : Text → Text → Bool
starts_with [] s = true
starts_with (c ∷ p) [] = false
starts_with (c ∷ p) (d ∷ s) = nat_eq c d && starts_with p s

-- `str::contains` of a text
unfoldable pub has_infix : Text → Text → Bool
unfolding starts_with
has_infix p [] = starts_with p []
has_infix p (c ∷ s) = starts_with p (c ∷ s) || has_infix p s

-- `char::is_whitespace`
abbrev pub is_whitespace : ℕ → Bool
is_whitespace c =
    (leb 9 c && leb c 13)
    || nat_eq c 32
    || nat_eq c 0x85
    || nat_eq c 0xa0
    || nat_eq c 0x1680
    || (leb 0x2000 c && leb c 0x200a)
    || nat_eq c 0x2028
    || nat_eq c 0x2029
    || nat_eq c 0x202f
    || nat_eq c 0x205f
    || nat_eq c 0x3000

-- `str::split_whitespace`: `cur` is the field that is being read, reversed
abbrev pub flush : Text → List Text → List Text
flush [] fields = fields
flush (c ∷ cur) fields = reverse (c ∷ cur) ∷ fields

pub fields_from : Text → Text → List Text
fields_from cur [] = flush cur []
fields_from cur (c ∷ s) = elim (is_whitespace c) [
  | true ↦ flush cur (fields_from [] s)
  | false ↦ fields_from (c ∷ cur) s
]

unfoldable pub split_whitespace : Text → List Text
unfolding fields_from
split_whitespace s = fields_from [] s

-- `str::trim`
trim_start : Text → Text
trim_start [] = []
trim_start (c ∷ s) = if is_whitespace c then trim_start s else c ∷ s

unfoldable pub trim : Text → Text
unfolding trim_start
trim s = reverse (trim_start (reverse (trim_start s)))

-- `str::split` at a character
pub split_from : ℕ → Text → Text → List Text
split_from sep cur [] = reverse cur ∷ []
split_from sep cur (c ∷ s) = elim (nat_eq c sep) [
  | true ↦ reverse cur ∷ split_from sep [] s
  | false ↦ split_from sep (c ∷ cur) s
]

unfoldable pub split_on : ℕ → Text → List Text
unfolding split_from
split_on sep s = split_from sep [] s

-- `[String]::join`
unfoldable pub join : Text → List Text → Text
join sep [] = []
join sep (s ∷ []) = s
join sep (s ∷ t ∷ r) = s ++ (sep ++ join sep (t ∷ r))

-- `str::to_ascii_lowercase`
abbrev pub lower : Text → Text
lower [] = []
lower (c ∷ s) = (if leb b'A' c && leb c b'Z' then c + 32 else c) ∷ lower s
