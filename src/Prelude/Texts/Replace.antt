-- ===== src/Prelude/Texts/Replace.antt =====
-- Texts: putting one character for another, and taking a line off the front.
use Prim.Native.Nat.{ℕ}
use mathlib.Core.Path.{◌≡◌, refl, ap, ◌∙◌}
use mathlib.Core.Logic.{◌≢◌, inl, inr}
use mathlib.Core.Bool.{Bool, false, ◌&&◌}
use mathlib.Core.List.{List, [], ◌∷◌, ◌++◌, map, reverse, reverse_aux}
use native.Mathlib.Omega.{arith}
use inter_fire.Prelude.Tests.{if◌then◌else◌, nat_eq, Bool-cases}
use inter_fire.Prelude.Texts.{Text, join, split_from, split_on}
use inter_fire.Prelude.Texts.Split.{IsFree, read_lines, push_line}

split_from-ne-nil : (sep : ℕ) (cur s : Text) → split_from sep cur s ≢ []
unfolding split_from
split_from-ne-nil sep cur [] = cc
split_from-ne-nil sep cur (c ∷ s) = elim (Bool-cases (nat_eq c sep)) [
  | inl e ↦ rw (e, split_from) (λ k. cc)
  | inr e ↦ rw (e, split_from) (split_from-ne-nil sep (c ∷ cur) s)
]

join-cons :
    (x : ℕ) (part : Text) (parts : List Text)
    → parts ≢ []
    → join (x ∷ []) (part ∷ parts) ≡ part ++ (x ∷ join (x ∷ []) parts)
unfolding join
join-cons x part [] h = absurd (h refl)
join-cons x part (p ∷ parts) h = refl

reverse_aux-append : (s t u : Text) → reverse_aux s t ++ u ≡ reverse_aux s (t ++ u)
reverse_aux-append [] t u = refl
reverse_aux-append (c ∷ s) t u = reverse_aux-append s (c ∷ t) u

join-split_from :
    (x sep : ℕ) (cur s : Text)
    → join (x ∷ []) (split_from sep cur s)
      ≡ reverse_aux cur (map (λ c. if nat_eq c sep then x else c) s)
unfolding split_from join
join-split_from x sep cur [] = refl
join-split_from x sep cur (c ∷ s) = elim (Bool-cases (nat_eq c sep)) [
  | inl e ↦
      rw (e, split_from)
        (join-cons x (reverse cur) (split_from sep [] s) (split_from-ne-nil sep [] s)
          ∙ ap (λ t. reverse cur ++ (x ∷ t)) (join-split_from x sep [] s)
          ∙ reverse_aux-append cur [] _)
  | inr e ↦ rw (e, split_from) (join-split_from x sep (c ∷ cur) s)
]

-- The parts, joined by another character, are the text with that character in place of the old one.
pub join-split_on :
    (x sep : ℕ) (s : Text)
    → join (x ∷ []) (split_on sep s) ≡ map (λ c. if nat_eq c sep then x else c) s
unfolding split_on
join-split_on x sep s = join-split_from x sep [] s

abbrev pub ends_in_return : Text → Bool
ends_in_return [] = false
ends_in_return (c ∷ []) = nat_eq c 13
ends_in_return (c ∷ d ∷ s) = ends_in_return (d ∷ s)

-- A line that does not end in a carriage return is read as it is.
pub read_lines-line :
    (line rest : Text)
    → IsFree 10 line
    → ends_in_return line ≡ false
    → read_lines (line ++ (10 ∷ rest)) ≡ line ∷ read_lines rest
unfolding read_lines
read_lines-line [] rest h k = refl
read_lines-line (c ∷ []) rest h k = rw (h.0, k) refl
read_lines-line (c ∷ d ∷ line) rest h k =
    let deeper = read_lines-line (d ∷ line) rest h.1 k in one c d line rest h.0 h.1.0 deeper
  where
    one :
        (c d : ℕ) (line rest : Text)
        → nat_eq c 10 ≡ false
        → nat_eq d 10 ≡ false
        → read_lines (d ∷ (line ++ (10 ∷ rest))) ≡ (d ∷ line) ∷ read_lines rest
        → (if nat_eq c 10
            then [] ∷ read_lines (d ∷ (line ++ (10 ∷ rest)))
            else if nat_eq c 13 && nat_eq d 10
            then read_lines (d ∷ (line ++ (10 ∷ rest)))
            else push_line c (read_lines (d ∷ (line ++ (10 ∷ rest)))))
          ≡ (c ∷ d ∷ line) ∷ read_lines rest
    one c d line rest h k e = ground (arith, e)
