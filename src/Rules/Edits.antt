-- ===== src/Rules/Edits.antt =====
-- Inserting and removing rules: crates/interfire-rules/src/lib.rs, `RuleSet::insert`, `remove`.
use inter_fire.Prelude.{
  ℕ, ◌≡◌, refl, ◌≢◌, ◌⊎◌, inl, inr, ◌↔◌, Bool, true, false, not, ◌||◌, List, [], ◌∷◌, ◌++◌, arith,
  sym, nat_eq, filter, any, In, All, length, length-filter-le, starts_with,
}
use inter_fire.Rules.{Rule, RuleSet, ok, insert, remove}
use inter_fire.Rules.Verdicts.{HasUniqueIds, In-filter}

-- A rule set that the daemon builds: absolute executables, and ids told apart.
abbrev pub IsAbsolute : Rule → Type 0
IsAbsolute rule = starts_with (b'/' ∷ []) rule.executable ≡ true

pub record IsValid (rules : RuleSet) : Type 0 where
  pub unique : HasUniqueIds rules
  pub absolute : All IsAbsolute rules

any-append : (p : Rule → Bool) (xs ys : List Rule) → any p (xs ++ ys) ≡ (any p xs || any p ys)
any-append p [] ys = refl
any-append p (x ∷ xs) ys = ground (arith, any-append p xs ys)

HasUniqueIds-push :
    (rule : Rule) (rules : RuleSet)
    → HasUniqueIds rules
    → any (λ existing. nat_eq existing.id rule.id) rules ≡ false
    → HasUniqueIds (rules ++ rule ∷ [])
HasUniqueIds-push rule [] u h = (refl, tt)
HasUniqueIds-push rule (x ∷ rest) u h = (
  ground (arith, any-append (λ existing. nat_eq existing.id x.id) rest (rule ∷ []), u.0),
  HasUniqueIds-push rule rest u.1 (ground arith),
)

All-push :
    (rule : Rule) (rules : RuleSet)
    → All IsAbsolute rules
    → IsAbsolute rule
    → All IsAbsolute (rules ++ rule ∷ [])
All-push rule [] h k = (k, tt)
All-push rule (x ∷ rest) h k = (h.0, All-push rule rest h.1 k)

pub In-push :
    (r rule : Rule) (rules : RuleSet) → In r (rules ++ rule ∷ []) ↔ (In r rules ⊎ (r ≡ rule))
In-push r rule [] = (
  λ i. elim i [ inl e ↦ inr e | inr j ↦ absurd j ],
  λ i. elim i [ inl j ↦ absurd j | inr e ↦ inl e ],
)
In-push r rule (x ∷ rest) =
    let (down, up) = In-push r rule rest in
    (
      λ i. elim i [
        | inl e ↦ inl (inl e)
        | inr j ↦ elim (down j) [ inl k ↦ inl (inr k) | inr e ↦ inr e ]
      ],
      λ i. elim i [
        | inl k ↦ elim k [ inl e ↦ inl e | inr j ↦ inr (up (inl j)) ]
        | inr e ↦ inr (up (inr e))
      ],
    )

insert-eq-ok :
    (rule : Rule) (rules rules' : RuleSet)
    → insert rule rules ≡ ok rules'
    → IsAbsolute rule
      × (any (λ existing. nat_eq existing.id rule.id) rules ≡ false)
      × (rules' ≡ rules ++ rule ∷ [])
unfolding insert
insert-eq-ok rule rules rules' h = ground arith

-- An accepted rule keeps the set valid, and the set holds the old rules and the new one.
pub insert-IsValid :
    (rule : Rule) (rules rules' : RuleSet)
    → IsValid rules
    → insert rule rules ≡ ok rules'
    → IsValid rules' × ((r : Rule) → In r rules' ↔ (In r rules ⊎ (r ≡ rule)))
insert-IsValid rule rules rules' v h =
    let (absolute, fresh, e) = insert-eq-ok rule rules rules' h in
    rw e (
      record {
        unique = HasUniqueIds-push rule rules v.unique fresh;
        absolute = All-push rule rules v.absolute absolute;
      },
      λ r. In-push r rule rules,
    )

any-filter_le :
    (p q : Rule → Bool) (rules : List Rule) → any p rules ≡ false → any p (filter q rules) ≡ false
any-filter_le p q [] h = h
any-filter_le p q (x ∷ rest) h = ground (arith, any-filter_le p q rest)

HasUniqueIds-filter :
    (q : Rule → Bool) (rules : List Rule) → HasUniqueIds rules → HasUniqueIds (filter q rules)
HasUniqueIds-filter q [] h = tt
HasUniqueIds-filter q (x ∷ rest) h = ground (
  arith,
  HasUniqueIds-filter q rest h.1,
  any-filter_le (λ existing. nat_eq existing.id x.id) q rest h.0,
)

All-filter :
    (q : Rule → Bool) (rules : List Rule) → All IsAbsolute rules → All IsAbsolute (filter q rules)
All-filter q [] h = tt
All-filter q (x ∷ rest) h = ground (arith, All-filter q rest h.1)

shrinks :
    (id : ℕ) (rules : List Rule)
    → any (λ rule. nat_eq rule.id id) rules
      ≡ not (nat_eq (length rules) (length (filter (λ rule. not (nat_eq rule.id id)) rules)))
shrinks id [] = ground arith
shrinks id (x ∷ rest) =
    ground (arith, shrinks id rest, length-filter-le (λ rule. not (nat_eq rule.id id)) rest)

kept_iff : (a b : ℕ) → (not (nat_eq a b) ≡ true) ↔ (a ≢ b)
kept_iff a b = (λ h e. ground arith, λ h. ground arith)

-- Removal keeps the set valid, keeps exactly the rules with another id, and reports whether a rule
-- with the id stood in the set.
pub remove-IsValid :
    (id : ℕ) (rules : RuleSet)
    → IsValid rules
    → IsValid (remove id rules).0
      × ((r : Rule) → In r (remove id rules).0 ↔ (In r rules × (r.id ≢ id)))
      × ((remove id rules).1 ≡ any (λ rule. nat_eq rule.id id) rules)
unfolding remove
remove-IsValid id rules v = (
  record {
    unique = HasUniqueIds-filter _ rules v.unique;
    absolute = All-filter _ rules v.absolute;
  },
  λ r.
      let (down, up) = In-filter (λ rule. not (nat_eq rule.id id)) r rules in
      (λ i. ((down i).0, (kept_iff r.id id).0 (down i).1), λ i. up (i.0, (kept_iff r.id id).1 i.1)),
  sym (shrinks id rules),
)
