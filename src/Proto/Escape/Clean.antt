-- ===== src/Proto/Escape/Clean.antt =====
-- What an escaped field does not hold.
use inter_fire.Prelude.{
  ℕ, ◌≡◌, refl, false, [], ◌∷◌, Text, nat_eq, All, IsFree, IsLine, is_eol, subst, sym,
}
use inter_fire.Proto.Escape.{
  escape_field, escape_with, percent_bar_semicolon, kind, a_percent, a_bar, a_semicolon, another,
  escape_field-escape_with,
}

-- A property of the characters of the escapes, and of every other character of the field but the
-- three that are escaped
escape_with-All :
    (P Q : ℕ → Type 0)
    → All P (b'%' ∷ b'2' ∷ b'5' ∷ b'7' ∷ b'C' ∷ b'3' ∷ b'B' ∷ [])
    → ((c : ℕ) → nat_eq c b'%' ≡ false → nat_eq c b'|' ≡ false → nat_eq c b';' ≡ false → Q c → P c)
    → (s : Text) → All Q s
    → All P (escape_with percent_bar_semicolon s)
escape_with-All P Q (p, (two, (five, (seven, (c_, (three, (b_, u))))))) f [] h = tt
escape_with-All P Q (p, (two, (five, (seven, (c_, (three, (b_, u))))))) f (c ∷ s) h =
    let rest = escape_with-All P Q (p, (two, (five, (seven, (c_, (three, (b_, u))))))) f s h.1 in
    elim (kind c) [
      | a_percent e ↦ rw e (p, (two, (five, rest)))
      | a_bar e ↦ rw e (p, (seven, (c_, rest)))
      | a_semicolon e ↦ rw e (p, (three, (b_, rest)))
      | another e g k ↦ rw (e, g, k) (f c e g k h.0, rest)
    ]

escape_field-All :
    (P Q : ℕ → Type 0)
    → All P (b'%' ∷ b'2' ∷ b'5' ∷ b'7' ∷ b'C' ∷ b'3' ∷ b'B' ∷ [])
    → ((c : ℕ) → nat_eq c b'%' ≡ false → nat_eq c b'|' ≡ false → nat_eq c b';' ≡ false → Q c → P c)
    → (s : Text) → All Q s
    → All P (escape_field s)
escape_field-All P Q a f s h =
    subst (All P) (sym (escape_field-escape_with s)) (escape_with-All P Q a f s h)

any_char : (s : Text) → All (λ c. Unit {0}) s
any_char [] = tt
any_char (c ∷ s) = (tt, any_char s)

pub escape_field-IsFree_bar : (s : Text) → IsFree b'|' (escape_field s)
escape_field-IsFree_bar s =
    escape_field-All (λ c. nat_eq c b'|' ≡ false) (λ c. Unit {0})
      (refl, (refl, (refl, (refl, (refl, (refl, (refl, tt))))))) (λ c e g k u. g) s (any_char s)

pub escape_field-IsFree_semicolon : (s : Text) → IsFree b';' (escape_field s)
escape_field-IsFree_semicolon s =
    escape_field-All (λ c. nat_eq c b';' ≡ false) (λ c. Unit {0})
      (refl, (refl, (refl, (refl, (refl, (refl, (refl, tt))))))) (λ c e g k u. k) s (any_char s)

pub escape_field-IsLine : (s : Text) → IsLine s → IsLine (escape_field s)
escape_field-IsLine s h =
    escape_field-All (λ c. is_eol c ≡ false) (λ c. is_eol c ≡ false)
      (refl, (refl, (refl, (refl, (refl, (refl, (refl, tt))))))) (λ c e g k u. u) s h
