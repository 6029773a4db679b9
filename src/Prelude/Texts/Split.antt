-- ===== src/Prelude/Texts/Split.antt =====
-- Lines and their parts: the ends of a line, and splitting at the first occurrences of a character.
use Prim.Native.Nat.{ℕ, zero, suc, ◌≤◌, ◌<◌}
use mathlib.Core.Path.{◌≡◌, refl, ap, ◌∙◌, sym}
use mathlib.Core.Logic.{◌≢◌, ◌⊎◌, inl, inr}
use mathlib.Core.Bool.{Bool, true, false, ◌||◌, ◌&&◌}
use mathlib.Core.List.{List, [], ◌∷◌, ◌++◌, reverse, reverse_aux, reverse-reverse, append-nil}
use mathlib.Core.Option.{Option, none, some}
use native.Mathlib.Omega.{arith}
use inter_fire.Prelude.Tests.{if◌then◌else◌, nat_eq, nat_eq_iff}
use inter_fire.Prelude.Lists.{All, length}
use inter_fire.Prelude.Texts.{
  Text, join, split_from, split_on, is_whitespace, fields_from, split_whitespace,
}
use inter_fire.Prelude.Texts.Fields.{IsWord, fields-word, flush-word}
use inter_fire.Prelude.Texts.Decimal.{IsDigits, show_nat, show_nat-IsDigits}

abbrev pub is_eol : ℕ → Bool
is_eol c = nat_eq c 13 || nat_eq c 10

-- Put before what is left of the line: an end of the line before nothing goes as well
abbrev pub keep_char : ℕ → Text → Text
keep_char c [] = if is_eol c then [] else c ∷ []
keep_char c (d ∷ s) = c ∷ d ∷ s

-- `str::trim_end_matches(['\r', '\n'])`
unfoldable pub trim_end : Text → Text
trim_end [] = []
trim_end (c ∷ s) = keep_char c (trim_end s)

abbrev pub push_front : ℕ → Option (Text × Text) → Option (Text × Text)
push_front c none = none
push_front c (some (before, after)) = some (c ∷ before, after)

-- `str::split_once` at a character
unfoldable pub split_once : ℕ → Text → Option (Text × Text)
split_once sep [] = none
split_once sep (c ∷ s) = if nat_eq c sep then some ([], s) else push_front c (split_once sep s)

-- `str::splitn` at a character
unfoldable pub splitn : ℕ → ℕ → Text → List Text
unfolding split_once
splitn zero sep s = []
splitn (suc zero) sep s = s ∷ []
splitn (suc (suc n)) sep s = elim (split_once sep s) [
  | none ↦ s ∷ []
  | some (before, after) ↦ before ∷ splitn (suc n) sep after
]

-- The character does not occur.
abbrev pub IsFree : ℕ → Text → Type 0
IsFree sep = All (λ c. nat_eq c sep ≡ false)

abbrev pub IsLine : Text → Type 0
IsLine = All (λ c. is_eol c ≡ false)

-- Every part but the last is free of the character.
abbrev pub IsSplit : ℕ → List Text → Type 0
IsSplit sep [] = Unit
IsSplit sep (s ∷ []) = Unit
IsSplit sep (s ∷ t ∷ r) = IsFree sep s × IsSplit sep (t ∷ r)

pub All-append {κ} : (P : ℕ → Type κ) (s t : Text) → All P s → All P t → All P (s ++ t)
All-append P [] t h k = k
All-append P (c ∷ s) t h k = (h.0, All-append P s t h.1 k)

-- Digits are free of every character that is none.
pub digits-All :
    (P : ℕ → Type 0) (s : Text) → ((c : ℕ) → b'0' ≤ c → c ≤ b'9' → P c) → IsDigits s → All P s
digits-All P [] f h = tt
digits-All P (c ∷ s) f h = (f c h.0 h.1, digits-All P s f h.2)

pub show_nat-IsFree : (sep n : ℕ) → (sep < b'0') ⊎ (b'9' < sep) → IsFree sep (show_nat n)
show_nat-IsFree sep n out =
    digits-All (λ c. nat_eq c sep ≡ false) (show_nat n) (λ c low high. other c low high out)
      (show_nat-IsDigits n)
  where
    other : (c : ℕ) → b'0' ≤ c → c ≤ b'9' → (sep < b'0') ⊎ (b'9' < sep) → nat_eq c sep ≡ false
    other c low high (inl h) = ground arith
    other c low high (inr h) = ground arith

pub show_nat-IsLine : (n : ℕ) → IsLine (show_nat n)
show_nat-IsLine n =
    digits-All (λ c. is_eol c ≡ false) (show_nat n) (λ c low high. ground arith)
      (show_nat-IsDigits n)

pub show_nat-IsWord : (n : ℕ) → All (λ c. is_whitespace c ≡ false) (show_nat n)
show_nat-IsWord n =
    digits-All (λ c. is_whitespace c ≡ false) (show_nat n) (λ c low high. ground arith)
      (show_nat-IsDigits n)

keep_char-line : (c : ℕ) (s : Text) → is_eol c ≡ false → keep_char c s ≡ c ∷ s
keep_char-line c [] h = rw h refl
keep_char-line c (d ∷ s) h = refl

-- A line is trimmed of the end that a frame adds to it.
pub trim_end-line : (s : Text) → IsLine s → trim_end (s ++ (10 ∷ [])) ≡ s
unfolding trim_end
trim_end-line [] h = refl
trim_end-line (c ∷ s) h = ap (keep_char c) (trim_end-line s h.1) ∙ keep_char-line c s h.0

pub trim_end-IsLine : (s : Text) → IsLine s → trim_end s ≡ s
unfolding trim_end
trim_end-IsLine [] h = refl
trim_end-IsLine (c ∷ s) h = ap (keep_char c) (trim_end-IsLine s h.1) ∙ keep_char-line c s h.0

-- `BufRead::lines`: a line ends at a line feed, which goes with a carriage return before it, or at the
-- end of the text.
abbrev pub push_line : ℕ → List Text → List Text
push_line c [] = (c ∷ []) ∷ []
push_line c (line ∷ lines) = (c ∷ line) ∷ lines

abbrev pub feeds : Text → Bool
feeds [] = false
feeds (c ∷ s) = nat_eq c 10

unfoldable pub read_lines : Text → List Text
read_lines [] = []
read_lines (c ∷ s) =
    let rest = read_lines s in
    if nat_eq c 10 then [] ∷ rest else if nat_eq c 13 && feeds s then rest else push_line c rest

pub read_lines-append :
    (line rest : Text) → IsLine line → read_lines (line ++ (10 ∷ rest)) ≡ line ∷ read_lines rest
unfolding read_lines
read_lines-append [] rest h = refl
read_lines-append (c ∷ line) rest h =
    let plain : (nat_eq c 10 ≡ false) × (nat_eq c 13 ≡ false) = ground (arith, h.0) in
    rw (plain.0, plain.1) (ap (push_line c) (read_lines-append line rest h.1))

pub split_once-append :
    (sep : ℕ) (s rest : Text) → IsFree sep s → split_once sep (s ++ (sep ∷ rest)) ≡ some (s, rest)
unfolding split_once
split_once-append sep [] rest h = ground (arith, nat_eq_iff sep sep)
split_once-append sep (c ∷ s) rest h =
    ap
      (λ b.
        if b
        then some ([], s ++ (sep ∷ rest))
        else push_front c (split_once sep (s ++ (sep ∷ rest))))
      h.0
    ∙ ap (push_front c) (split_once-append sep s rest h.1)

-- As many parts as were joined
pub splitn-join :
    (sep : ℕ) (parts : List Text)
    → IsSplit sep parts
    → parts ≢ []
    → splitn (length parts) sep (join (sep ∷ []) parts) ≡ parts
unfolding splitn join
splitn-join sep [] h ne = absurd (ne refl)
splitn-join sep (s ∷ []) h ne = refl
splitn-join sep (s ∷ t ∷ r) h ne =
    ap (next (length r)) (split_once-append sep s (join (sep ∷ []) (t ∷ r)) h.0)
    ∙ ap (λ x. s ∷ x) (splitn-join sep (t ∷ r) h.1 (λ e. cc))
  where
    next : ℕ → Option (Text × Text) → List Text
    next n o = elim o [
      | none ↦ (s ++ (sep ∷ join (sep ∷ []) (t ∷ r))) ∷ []
      | some (before, after) ↦ before ∷ splitn (suc n) sep after
    ]

split_from-append :
    (sep : ℕ) (cur s rest : Text)
    → IsFree sep s
    → split_from sep cur (s ++ rest) ≡ split_from sep (reverse_aux s cur) rest
unfolding split_from
split_from-append sep cur [] rest h = refl
split_from-append sep cur (c ∷ s) rest h =
    ap (step (split_from sep (c ∷ cur) (s ++ rest)) (reverse cur ∷ split_from sep [] (s ++ rest)))
      h.0
    ∙ split_from-append sep (c ∷ cur) s rest h.1
  where
    step : List Text → List Text → Bool → List Text
    step on off b = elim b [ true ↦ off | false ↦ on ]

-- The first part
pub split_on-append :
    (sep : ℕ) (s rest : Text)
    → IsFree sep s
    → split_on sep (s ++ (sep ∷ rest)) ≡ s ∷ split_on sep rest
unfolding split_on split_from
split_on-append sep s rest h =
    split_from-append sep [] s (sep ∷ rest) h
    ∙ ap (next (reverse s)) ((nat_eq_iff sep sep).1 refl)
    ∙ ap (λ x. x ∷ split_from sep [] rest) (reverse-reverse s)
  where
    next : Text → Bool → List Text
    next cur b = elim b [
      | true ↦ reverse cur ∷ split_from sep [] rest
      | false ↦ split_from sep (sep ∷ cur) rest
    ]

pub split_once-free : (sep : ℕ) (s : Text) → IsFree sep s → split_once sep s ≡ none
unfolding split_once
split_once-free sep [] h = refl
split_once-free sep (c ∷ s) h =
    ap (λ b. if b then some ([], s) else push_front c (split_once sep s)) h.0
    ∙ ap (push_front c) (split_once-free sep s h.1)

-- Rows that are free of the separator are split again.
pub split_on-join :
    (sep : ℕ) (rows : List Text)
    → All (IsFree sep) rows
    → rows ≢ []
    → split_on sep (join (sep ∷ []) rows) ≡ rows
unfolding split_on split_from join
split_on-join sep [] h ne = absurd (ne refl)
split_on-join sep (s ∷ []) h ne =
    ap (split_from sep []) (sym (append-nil s))
    ∙ split_from-append sep [] s [] h.0
    ∙ ap (λ x. x ∷ []) (reverse-reverse s)
split_on-join sep (s ∷ t ∷ r) h ne =
    split_on-append sep s (join (sep ∷ []) (t ∷ r)) h.0
    ∙ ap (λ x. s ∷ x) (split_on-join sep (t ∷ r) h.1 (λ e. cc))

-- The words of a line without its end
pub split_whitespace-join :
    (words : List Text) → All IsWord words → split_whitespace (join (32 ∷ []) words) ≡ words
unfolding split_whitespace fields_from join
split_whitespace-join [] h = refl
split_whitespace-join (s ∷ []) h =
    ap (fields_from []) (sym (append-nil s)) ∙ fields-word [] s [] h.0.1 ∙ flush-word s [] h.0.0
split_whitespace-join (s ∷ t ∷ r) h =
    fields-word [] s (32 ∷ join (32 ∷ []) (t ∷ r)) h.0.1
    ∙ flush-word s (fields_from [] (join (32 ∷ []) (t ∷ r))) h.0.0
    ∙ ap (λ x. s ∷ x) (split_whitespace-join (t ∷ r) h.1)
