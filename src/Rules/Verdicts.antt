-- ===== src/Rules/Verdicts.antt =====
-- Which rule decides: crates/interfire-rules/src/lib.rs, `RuleSet::verdict_for`.
use inter_fire.Prelude.{
  ℕ, ◌≡◌, refl, ◌⊎◌, inl, inr, Bool, true, false, List, [], ◌∷◌, arith, sym, ◌∙◌, ap, nat_eq,
  nat_eq_iff, if◌then◌else◌, filter, any, In, Bool-cases, ◌↔◌,
}
use inter_fire.Rules.{
  Rule, Connection, prompt, RuleSet, matches, precedence, key_leb, max_from, verdict_for,
}

-- No two rules of the list have one id.
abbrev pub HasUniqueIds : List Rule → Type 0
HasUniqueIds [] = Unit
HasUniqueIds (rule ∷ rest) =
    (any (λ existing. nat_eq existing.id rule.id) rest ≡ false) × HasUniqueIds rest

-- `top` is matched, and every other matching rule of the list ranks below it or level with it.
pub record IsTop (connection : Connection) (top : Rule) (rules : List Rule) : Type 0 where
  pub member : In top rules
  pub matched : matches top connection ≡ true
  pub highest :
      (rule : Rule)
      → In rule rules
      → matches rule connection ≡ true
      → key_leb (precedence rule) (precedence top) ≡ true

key_leb_trans : (a b c : ℕ × ℕ) → key_leb a b ≡ true → key_leb b c ≡ true → key_leb a c ≡ true
key_leb_trans (a, b) (c, d) (e, f) h k = ground arith

key_leb_total : (a b : ℕ × ℕ) → key_leb a b ≡ false → key_leb b a ≡ true
key_leb_total (a, b) (c, d) h = ground arith

key_leb_refl : (a : ℕ × ℕ) → key_leb a a ≡ true
key_leb_refl (a, b) = ground arith

max_from-In :
    (best : Rule) (rules : List Rule)
    → (max_from best rules ≡ best) ⊎ In (max_from best rules) rules
unfolding max_from
max_from-In best [] = inl refl
max_from-In best (rule ∷ rest) =
    elim (key_leb (precedence best) (precedence rule))
      as (λ b.
        (max_from (if b then rule else best) rest ≡ best)
        ⊎ (max_from (if b then rule else best) rest ≡ rule)
        ⊎ In (max_from (if b then rule else best) rest) rest) [
          | true ↦ inr (max_from-In rule rest)
          | false ↦ elim (max_from-In best rest) [ inl e ↦ inl e | inr i ↦ inr (inr i) ]
        ]

max_from-best :
    (best : Rule) (rules : List Rule)
    → key_leb (precedence best) (precedence (max_from best rules)) ≡ true
unfolding max_from
max_from-best best [] = key_leb_refl (precedence best)
max_from-best best (rule ∷ rest) = elim (Bool-cases (key_leb (precedence best) (precedence rule))) [
  | inl t ↦ rw t (key_leb_trans (precedence best) (precedence rule) _ t (max_from-best rule rest))
  | inr t ↦ rw t (max_from-best best rest)
]

max_from-highest :
    (best : Rule) (rules : List Rule) (rule : Rule)
    → In rule rules
    → key_leb (precedence rule) (precedence (max_from best rules)) ≡ true
unfolding max_from
max_from-highest best [] rule i = absurd i
max_from-highest best (r ∷ rest) rule i =
    elim (Bool-cases (key_leb (precedence best) (precedence r))) [
      | inl t ↦ rw t (step r (max_from-best r rest) (max_from-highest r rest rule) i)
      | inr t ↦ rw t (
          step best
            (key_leb_trans (precedence r) (precedence best) _
              (key_leb_total (precedence best) (precedence r) t) (max_from-best best rest))
            (max_from-highest best rest rule) i)
    ]
  where
    step :
        (b : Rule)
        → key_leb (precedence r) (precedence (max_from b rest)) ≡ true
        → (In rule rest → key_leb (precedence rule) (precedence (max_from b rest)) ≡ true)
        → (rule ≡ r) ⊎ In rule rest
        → key_leb (precedence rule) (precedence (max_from b rest)) ≡ true
    step b here later (inl e) = rw e here
    step b here later (inr i) = later i

pub differs : {b : Bool} → b ≡ false → b ≡ true → ⊥
differs h k = cc

pub In-filter :
    (p : Rule → Bool) (r : Rule) (rules : List Rule)
    → In r (filter p rules) ↔ (In r rules × (p r ≡ true))
In-filter p r [] = (λ i. absurd i, λ i. absurd i.0)
In-filter p r (x ∷ rest) =
    let (down, up) = In-filter p r rest in
    elim (Bool-cases (p x)) [
      | inl t ↦ rw t (
        λ i. elim i [ inl e ↦ (inl e, rw e t) | inr j ↦ (inr (down j).0, (down j).1) ],
        λ i. elim i.0 [ inl e ↦ inl e | inr j ↦ inr (up (j, i.1)) ],
      )
      | inr t ↦ rw t (
        λ j. (inr (down j).0, (down j).1),
        λ i. elim i.0 [ inl e ↦ absurd (differs (rw e t) i.1) | inr j ↦ up (j, i.1) ],
      )
    ]

abbrev matching : RuleSet → Connection → List Rule
matching rules connection = filter (λ rule. matches rule connection) rules

IsTop-max :
    (connection : Connection) (best : Rule) (rest : List Rule) (rules : RuleSet)
    → matching rules connection ≡ best ∷ rest
    → IsTop connection (max_from best rest) rules
IsTop-max connection best rest rules e =
    let inside : In (max_from best rest) (matching rules connection) =
      rw e (max_from-In best rest) in
    let found = (In-filter (λ r. matches r connection) (max_from best rest) rules).0 inside in
    record {
      member = found.0;
      matched = found.1;
      highest = λ rule i m.
          covered rule (rw e at ((In-filter (λ r. matches r connection) rule rules).1 (i, m)));
    }
  where
    covered :
        (rule : Rule)
        → In rule (best ∷ rest)
        → key_leb (precedence rule) (precedence (max_from best rest)) ≡ true
    covered rule (inl e) = rw e (max_from-best best rest)
    covered rule (inr i) = max_from-highest best rest rule i

-- No rule of the set matches, and the verdict is `Prompt`; or the verdict is that of a matching rule
-- that no other matching rule outranks.
pub verdict_for_lem :
    (rules : RuleSet) (connection : Connection)
    → (((rule : Rule) → In rule rules → matches rule connection ≡ false)
        × (verdict_for rules connection ≡ prompt))
      ⊎ ((top : Rule) × IsTop connection top rules × (verdict_for rules connection ≡ top.verdict))
unfolding verdict_for
verdict_for_lem rules connection = go (matching rules connection) refl
  where
    go :
        (l : List Rule)
        → matching rules connection ≡ l
        → (((rule : Rule) → In rule rules → matches rule connection ≡ false)
            × (verdict_for rules connection ≡ prompt))
          ⊎ ((top : Rule) × IsTop connection top rules
              × (verdict_for rules connection ≡ top.verdict))
    go [] e = inl (
      λ rule i. elim (Bool-cases (matches rule connection)) [
        | inl t ↦ absurd (rw e at ((In-filter (λ r. matches r connection) rule rules).1 (i, t)))
        | inr t ↦ t
      ],
      rw e,
    )
    go (best ∷ rest) e = inr (max_from best rest, IsTop-max connection best rest rules e, rw e)

pub any-of_In :
    (p : Rule → Bool) (r : Rule) (rules : List Rule) → In r rules → p r ≡ true → any p rules ≡ true
any-of_In p r (x ∷ rest) (inl e) h = rw (← e) (ground arith)
any-of_In p r (x ∷ rest) (inr i) h = ground (arith, any-of_In p r rest i h)
any-of_In p r [] i h = absurd i

clash :
    (x : Rule) (rest : List Rule) (b : Rule)
    → any (λ existing. nat_eq existing.id x.id) rest ≡ false
    → In b rest
    → b.id ≡ x.id
    → ⊥
clash x rest b u j e =
    ground (arith, any-of_In (λ existing. nat_eq existing.id x.id) b rest j, nat_eq_iff b.id x.id)

eq_of_id :
    (rules : List Rule) (a b : Rule)
    → HasUniqueIds rules
    → In a rules
    → In b rules
    → a.id ≡ b.id
    → a ≡ b
eq_of_id [] a b u i j e = absurd i
eq_of_id (x ∷ rest) a b u (inl p) (inl q) e = p ∙ sym q
eq_of_id (x ∷ rest) a b u (inr i) (inr j) e = eq_of_id rest a b u.1 i j e
eq_of_id (x ∷ rest) a b u (inl p) (inr j) e =
    absurd (clash x rest b u.0 j (sym e ∙ ap (λ (r : Rule). r.id) p))
eq_of_id (x ∷ rest) a b u (inr i) (inl q) e =
    absurd (clash x rest a u.0 i (e ∙ ap (λ (r : Rule). r.id) q))

key_leb_snd : (a b : ℕ × ℕ) → key_leb a b ≡ true → key_leb b a ≡ true → a.1 ≡ b.1
key_leb_snd (a, b) (c, d) h k = ground arith

precedence_id :
    (a b : Rule)
    → key_leb (precedence a) (precedence b) ≡ true
    → key_leb (precedence b) (precedence a) ≡ true
    → a.id ≡ b.id
unfolding precedence
precedence_id a b h k = key_leb_snd (precedence a) (precedence b) h k

-- The verdict does not depend on the order in which the rules stand: two sets with the same rules,
-- in one of which ids are unique, decide every connection alike.
pub verdict_for_deterministic :
    (xs ys : RuleSet) (connection : Connection)
    → HasUniqueIds xs
    → ((rule : Rule) → In rule xs ↔ In rule ys)
    → verdict_for xs connection ≡ verdict_for ys connection
verdict_for_deterministic xs ys connection unique same =
    go (verdict_for_lem xs connection) (verdict_for_lem ys connection)
  where
    Outcome : RuleSet → Type 0
    Outcome rules =
        (((rule : Rule) → In rule rules → matches rule connection ≡ false)
          × (verdict_for rules connection ≡ prompt))
        ⊎ ((top : Rule) × IsTop connection top rules × (verdict_for rules connection ≡ top.verdict))

    go : Outcome xs → Outcome ys → verdict_for xs connection ≡ verdict_for ys connection
    go (inl (none_x, ex)) (inl (none_y, ey)) = ex ∙ sym ey
    go (inl (none_x, ex)) (inr (t, top, ey)) =
        absurd (differs (none_x t ((same t).1 top.member)) top.matched)
    go (inr (t, top, ex)) (inl (none_y, ey)) =
        absurd (differs (none_y t ((same t).0 top.member)) top.matched)
    go (inr (t, top, ex)) (inr (u, upper, ey)) =
        let t_u = upper.highest t ((same t).0 top.member) top.matched in
        let u_t = top.highest u ((same u).1 upper.member) upper.matched in
        let e =
          eq_of_id xs t u unique top.member ((same u).1 upper.member) (precedence_id t u t_u u_t) in
        ex ∙ ap (λ (r : Rule). r.verdict) e ∙ sym ey
