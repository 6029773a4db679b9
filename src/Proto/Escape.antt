-- ===== src/Proto/Escape.antt =====
-- crates/interfire-proto/src/lib.rs, `escape_field` and `unescape_field`: the fields of a row.
pub mod Clean
use inter_fire.Prelude.{
  ℕ, ◌≡◌, refl, ap, ◌∙◌, false, ◌&&◌, [], ◌∷◌, ◌++◌, arith, Text, nat_eq, nat_eq_iff, if◌then◌else◌,
  inl, inr, Bool-cases,
}

-- `str::replace` of one character
abbrev pub replace_char : ℕ → Text → Text → Text
replace_char c by [] = []
replace_char c by (d ∷ s) =
    let rest = replace_char c by s in if nat_eq d c then by ++ rest else d ∷ rest

-- `str::replace` of three characters by one: from left to right, past each match
unfoldable pub replace_three : ℕ → ℕ → ℕ → ℕ → Text → Text
replace_three a b c by (x ∷ y ∷ z ∷ s) =
    let here = by ∷ replace_three a b c by s in
    let later = x ∷ replace_three a b c by (y ∷ z ∷ s) in
    if nat_eq x a && (nat_eq y b && nat_eq z c) then here else later
replace_three a b c by s = s

-- `escape_field`
unfoldable pub escape_field : Text → Text
escape_field value = replace_char b';' (b'%' ∷ b'3' ∷ b'B' ∷ []) (
    replace_char b'|' (b'%' ∷ b'7' ∷ b'C' ∷ []) (replace_char b'%' (b'%' ∷ b'2' ∷ b'5' ∷ []) value))

-- `unescape_field`
unfoldable pub unescape_field : Text → Text
unescape_field value =
    replace_three b'%' b'2' b'5' b'%'
      (replace_three b'%' b'7' b'C' b'|' (replace_three b'%' b'3' b'B' b';' value))

-- A text with some of the three characters escaped, one character after the other
abbrev escape_with : (ℕ → Text → Text) → Text → Text
escape_with step [] = []
escape_with step (c ∷ s) = step c (escape_with step s)

abbrev percent : ℕ → Text → Text
percent c rest = if nat_eq c b'%' then b'%' ∷ b'2' ∷ b'5' ∷ rest else c ∷ rest

abbrev percent_bar : ℕ → Text → Text
percent_bar c rest =
    if nat_eq c b'%'
    then b'%' ∷ b'2' ∷ b'5' ∷ rest
    else if nat_eq c b'|'
    then b'%' ∷ b'7' ∷ b'C' ∷ rest
    else c ∷ rest

abbrev percent_bar_semicolon : ℕ → Text → Text
percent_bar_semicolon c rest =
    if nat_eq c b'%'
    then b'%' ∷ b'2' ∷ b'5' ∷ rest
    else if nat_eq c b'|'
    then b'%' ∷ b'7' ∷ b'C' ∷ rest
    else if nat_eq c b';'
    then b'%' ∷ b'3' ∷ b'B' ∷ rest
    else c ∷ rest

data Kind (c : ℕ) : Type 0 where
  a_percent : c ≡ b'%' → Kind c
  a_bar : c ≡ b'|' → Kind c
  a_semicolon : c ≡ b';' → Kind c
  another : nat_eq c b'%' ≡ false → nat_eq c b'|' ≡ false → nat_eq c b';' ≡ false → Kind c

kind : (c : ℕ) → Kind c
kind c = elim (Bool-cases (nat_eq c b'%')) [
  | inl e ↦ a_percent ((nat_eq_iff c b'%').0 e)
  | inr e ↦ elim (Bool-cases (nat_eq c b'|')) [
    | inl f ↦ a_bar ((nat_eq_iff c b'|').0 f)
    | inr f ↦ elim (Bool-cases (nat_eq c b';')) [
      | inl g ↦ a_semicolon ((nat_eq_iff c b';').0 g)
      | inr g ↦ another e f g
    ]
  ]
]

escape_field-cons :
    (c : ℕ) (s : Text) → escape_field (c ∷ s) ≡ percent_bar_semicolon c (escape_field s)
unfolding escape_field
escape_field-cons c s = elim (kind c) [
  | a_percent e ↦ rw e refl
  | a_bar e ↦ rw e refl
  | a_semicolon e ↦ rw e refl
  | another e f g ↦ rw (e, f, g) refl
]

escape_field-escape_with : (s : Text) → escape_field s ≡ escape_with percent_bar_semicolon s
escape_field-escape_with [] = unfold escape_field in refl
escape_field-escape_with (c ∷ s) =
    escape_field-cons c s ∙ ap (percent_bar_semicolon c) (escape_field-escape_with s)

replace_three-skip :
    (a b c by x : ℕ) (s : Text)
    → nat_eq x a ≡ false
    → replace_three a b c by (x ∷ s) ≡ x ∷ replace_three a b c by s
unfolding replace_three
replace_three-skip a b c by x [] h = refl
replace_three-skip a b c by x (y ∷ []) h = refl
replace_three-skip a b c by x (y ∷ z ∷ s) h = rw h refl

replace_three-no :
    (a b c by y z : ℕ) (s : Text)
    → nat_eq y b ≡ false
    → replace_three a b c by (a ∷ y ∷ z ∷ s) ≡ a ∷ replace_three a b c by (y ∷ z ∷ s)
unfolding replace_three
replace_three-no a b c by y z s other = ground arith

-- Past an escape of another character
replace_three-past :
    (a b c by y z : ℕ) (s : Text)
    → nat_eq y b ≡ false
    → nat_eq y a ≡ false
    → nat_eq z a ≡ false
    → replace_three a b c by (a ∷ y ∷ z ∷ s) ≡ a ∷ y ∷ z ∷ replace_three a b c by s
replace_three-past a b c by y z s other y_new z_new =
    replace_three-no a b c by y z s other
    ∙ ap (λ t. a ∷ t)
        (replace_three-skip a b c by y (z ∷ s) y_new
          ∙ ap (λ t. y ∷ t) (replace_three-skip a b c by z s z_new))

replace_three-match :
    (a b c by : ℕ) (s : Text)
    → replace_three a b c by (a ∷ b ∷ c ∷ s) ≡ by ∷ replace_three a b c by s
unfolding replace_three
replace_three-match a b c by s = ground (arith, nat_eq_iff a a, nat_eq_iff b b, nat_eq_iff c c)

unescape_semicolon :
    (s : Text)
    → replace_three b'%' b'3' b'B' b';' (escape_with percent_bar_semicolon s)
      ≡ escape_with percent_bar s
unescape_semicolon [] = unfold replace_three in refl
unescape_semicolon (c ∷ s) =
    let rest = escape_with percent_bar_semicolon s in
    elim (kind c) [
      | a_percent e ↦ rw e (
          replace_three-past b'%' b'3' b'B' b';' b'2' b'5' rest refl refl refl
          ∙ ap (λ t. b'%' ∷ b'2' ∷ b'5' ∷ t) (unescape_semicolon s))
      | a_bar e ↦ rw e (
          replace_three-past b'%' b'3' b'B' b';' b'7' b'C' rest refl refl refl
          ∙ ap (λ t. b'%' ∷ b'7' ∷ b'C' ∷ t) (unescape_semicolon s))
      | a_semicolon e ↦
          rw e (
            replace_three-match b'%' b'3' b'B' b';' rest
            ∙ ap (λ t. b';' ∷ t) (unescape_semicolon s))
      | another e f g ↦
          rw (e, f, g)
            (replace_three-skip b'%' b'3' b'B' b';' c rest e
              ∙ ap (λ t. c ∷ t) (unescape_semicolon s))
    ]

unescape_bar :
    (s : Text)
    → replace_three b'%' b'7' b'C' b'|' (escape_with percent_bar s) ≡ escape_with percent s
unescape_bar [] = unfold replace_three in refl
unescape_bar (c ∷ s) =
    let rest = escape_with percent_bar s in
    elim (kind c) [
      | a_percent e ↦ rw e (
          replace_three-past b'%' b'7' b'C' b'|' b'2' b'5' rest refl refl refl
          ∙ ap (λ t. b'%' ∷ b'2' ∷ b'5' ∷ t) (unescape_bar s))
      | a_bar e ↦
          rw e (replace_three-match b'%' b'7' b'C' b'|' rest ∙ ap (λ t. b'|' ∷ t) (unescape_bar s))
      | a_semicolon e ↦ rw e (
          replace_three-skip b'%' b'7' b'C' b'|' b';' rest refl
          ∙ ap (λ t. b';' ∷ t) (unescape_bar s))
      | another e f g ↦
          rw (e, f)
            (replace_three-skip b'%' b'7' b'C' b'|' c rest e ∙ ap (λ t. c ∷ t) (unescape_bar s))
    ]

unescape_percent : (s : Text) → replace_three b'%' b'2' b'5' b'%' (escape_with percent s) ≡ s
unescape_percent [] = unfold replace_three in refl
unescape_percent (c ∷ s) =
    let rest = escape_with percent s in
    elim (Bool-cases (nat_eq c b'%')) [
      | inl e ↦
          rw ((nat_eq_iff c b'%').0 e)
            (replace_three-match b'%' b'2' b'5' b'%' rest ∙ ap (λ t. b'%' ∷ t) (unescape_percent s))
      | inr e ↦
          rw e
            (replace_three-skip b'%' b'2' b'5' b'%' c rest e ∙ ap (λ t. c ∷ t) (unescape_percent s))
    ]

-- Every text goes through a row: a field that is escaped, whatever percent signs, bars and semicolons it holds, is unescaped to itself.
pub unescape_field-escape_field : (value : Text) → unescape_field (escape_field value) ≡ value
unfolding unescape_field
unescape_field-escape_field value =
    ap (λ t. replace_three b'%' b'2' b'5' b'%' (replace_three b'%' b'7' b'C' b'|' t))
      (ap (replace_three b'%' b'3' b'B' b';') (escape_field-escape_with value)
        ∙ unescape_semicolon value)
    ∙ ap (replace_three b'%' b'2' b'5' b'%') (unescape_bar value)
    ∙ unescape_percent value
