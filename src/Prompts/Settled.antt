-- ===== src/Prompts/Settled.antt =====
-- An answer keeps the queue well formed.
use inter_fire.Prelude.{
  ℕ, ◌≡◌, refl, ◌∙◌, sym, ap, inl, inr, ◌⊎◌, ◌≢◌, true, false, Option, none, some, List, ◌∷◌, arith,
  eq_nat, ◌==◌, ==_iff, if◌then◌else◌, nat_eq, nat_eq_iff, Map, get, insert, remove, contains,
  get-remove, get-insert, length-remove-le, Bool-cases, keys-insert-IsNodup,
}
use inter_fire.Rules.{Verdict}
use inter_fire.Prompts.{
  Prompt, PromptKey, eq_prompt_key, PromptQueue, PromptState, RuleScope, is_pending, expire,
  answered, answer, answer_at, answer_prompt, leave_token, or_given,
}
use inter_fire.Prompts.Invariant.{IsValid, IsKeyed-get, IsKeyed-insert}
use inter_fire.Prompts.Expiry.{expire-IsValid}

abbrev pub settle : Verdict → RuleScope → Prompt → Prompt
settle verdict scope p = record p {
  state = answered;
  answer_verdict = some verdict;
  answer_scope = some scope;
}

abbrev pub settled_queue : ℕ → Verdict → RuleScope → Prompt → PromptQueue → PromptQueue
settled_queue id verdict scope p q = record q {
  prompts = insert id (settle verdict scope p) q.prompts;
  pending_by_key = remove p.key q.pending_by_key;
}

tokens-IsValid :
    (allows : Map PromptKey ℕ) (denies : List PromptKey) (q : PromptQueue)
    → IsValid q
    → IsValid (record q { once_allows = allows; once_denies = denies })
tokens-IsValid allows denies q v = record {
  positive = v.positive;
  unique = v.unique;
  keyed = v.keyed;
  below = v.below;
  asked = v.asked;
  waiting = v.waiting;
  bounded = v.bounded;
  settled = v.settled;
}

leave_token-IsValid :
    (now : ℕ) (key : PromptKey) (verdict : Verdict) (scope : RuleScope) (q : PromptQueue)
    → IsValid q
    → IsValid (leave_token now key verdict scope q)
unfolding leave_token
leave_token-IsValid now key Verdict.allow RuleScope.once q v =
    tokens-IsValid (insert key now q.once_allows) q.once_denies q v
leave_token-IsValid now key Verdict.deny RuleScope.once q v =
    tokens-IsValid q.once_allows
      (if contains key q.once_denies then q.once_denies else key ∷ q.once_denies) q v
leave_token-IsValid now key Verdict.prompt RuleScope.once q v = v
leave_token-IsValid now key Verdict.allow RuleScope.session q v = v
leave_token-IsValid now key Verdict.allow RuleScope.permanent q v = v
leave_token-IsValid now key Verdict.deny RuleScope.session q v = v
leave_token-IsValid now key Verdict.deny RuleScope.permanent q v = v
leave_token-IsValid now key Verdict.prompt RuleScope.session q v = v
leave_token-IsValid now key Verdict.prompt RuleScope.permanent q v = v

pub prompts-leave_token :
    (now : ℕ) (key : PromptKey) (verdict : Verdict) (scope : RuleScope) (q : PromptQueue)
    → (leave_token now key verdict scope q).prompts ≡ q.prompts
unfolding leave_token
prompts-leave_token now key Verdict.allow RuleScope.once q = refl
prompts-leave_token now key Verdict.deny RuleScope.once q = refl
prompts-leave_token now key _ _ q = refl

module _ (id : ℕ) (verdict : Verdict) (scope : RuleScope) (p : Prompt) (q : PromptQueue)
    (v : IsValid q) (found : get id q.prompts ≡ some p) (waits : is_pending p.state ≡ true) where
  settled_queue-was :
      (j : ℕ) (r : Prompt)
      → get j (settled_queue id verdict scope p q).prompts ≡ some r
      → ((id ≡ j) × (settle verdict scope p ≡ r)) ⊎ ((id ≢ j) × (get j q.prompts ≡ some r))
  settled_queue-was j r h = elim (Bool-cases (nat_eq id j)) [
    | inl t ↦ inl (
      ground (arith, nat_eq_iff id j),
      ground (arith, get-insert id j (settle verdict scope p) q.prompts),
    )
    | inr f ↦ inr (
      (λ e. ground (arith, nat_eq_iff id j)),
      ground (arith, get-insert id j (settle verdict scope p) q.prompts),
    )
  ]

  settled_queue-asked :
      (k : PromptKey) (j : ℕ)
      → get k (settled_queue id verdict scope p q).pending_by_key ≡ some j
      → (r : Prompt) × (get j (settled_queue id verdict scope p q).prompts ≡ some r)
        × (is_pending r.state ≡ true)
        × (r.key ≡ k)
  settled_queue-asked k j h = elim (Bool-cases (p.key == k)) [
    | inl t ↦
        let gone : none ≡ some j =
          sym (
            get-remove p.key k q.pending_by_key
            ∙ ap (λ b. if b then none else get k q.pending_by_key) t)
          ∙ h in
        cc
    | inr f ↦
        let there : get k q.pending_by_key ≡ some j =
          sym (
            get-remove p.key k q.pending_by_key
            ∙ ap (λ b. if b then none else get k q.pending_by_key) f)
          ∙ h in
        kept f (v.asked k j there)
  ]
    where
      kept :
          ((p.key == k) ≡ false)
          → ((r : Prompt) × (get j q.prompts ≡ some r) × (is_pending r.state ≡ true) × (r.key ≡ k))
          → (r : Prompt) × (get j (settled_queue id verdict scope p q).prompts ≡ some r)
            × (is_pending r.state ≡ true)
            × (r.key ≡ k)
      kept f (r, there, w, same) =
          let other : id ≢ j = λ e.
            let both : some p ≡ some r = sym found ∙ ap (λ i. get i q.prompts) e ∙ there in
            let yes : (p.key == k) ≡ true =
              (==_iff p.key k).1 (ap (λ o. (or_given o r).key) both ∙ same) in
            let no : true ≡ false = sym yes ∙ f in ground arith in
          (
            r,
            get-insert id j (settle verdict scope p) q.prompts ∙ ground (arith, nat_eq_iff id j),
            w,
            same,
          )

  settled_queue-IsValid : IsValid (settled_queue id verdict scope p q)
  settled_queue-IsValid = record {
    positive = v.positive;
    unique = keys-insert-IsNodup id (settle verdict scope p) q.prompts v.unique;
    keyed =
        IsKeyed-insert id (settle verdict scope p) q.prompts v.keyed
          (IsKeyed-get id p q.prompts v.keyed found);
    below = λ j h.
        ground
          (arith, get-insert id j (settle verdict scope p) q.prompts, nat_eq_iff id j, v.below j);
    asked = settled_queue-asked;
    waiting = λ j r h w. elim (settled_queue-was j r h) [
      | inl (at, is) ↦ cc
      | inr (ne, was) ↦
          let asks : get p.key q.pending_by_key ≡ some id = (v.waiting id p found waits).0 in
          let asks' : get r.key q.pending_by_key ≡ some j = (v.waiting j r was w).0 in
          let other : p.key ≢ r.key = λ e.
            let both : some id ≡ some j = sym asks ∙ ap (λ k. get k q.pending_by_key) e ∙ asks' in
            ne (ground arith) in
          (
            get-remove p.key r.key q.pending_by_key ∙ ground (arith, ==_iff p.key r.key),
            (v.waiting j r was w).1,
          )
    ];
    bounded = omega (arith, v.bounded, length-remove-le p.key q.pending_by_key);
    settled = λ j r h a. elim (settled_queue-was j r h) [
      | inl (at, is) ↦
          (verdict, scope, ap (λ x. x.answer_verdict) (sym is), ap (λ x. x.answer_scope) (sym is))
      | inr (ne, was) ↦ v.settled j r was a
    ];
  }

answer_prompt-IsValid :
    (now id : ℕ) (verdict : Verdict) (scope : RuleScope) (p : Prompt) (s : PromptState)
    (q : PromptQueue)
    → IsValid q
    → get id q.prompts ≡ some p
    → p.state ≡ s
    → IsValid (answer_prompt now id verdict scope p s q).1
unfolding answer_prompt
answer_prompt-IsValid now id verdict scope p PromptState.expired q v found is = v
answer_prompt-IsValid now id verdict scope p PromptState.answered q v found is = v
answer_prompt-IsValid now id verdict scope p PromptState.pending q v found is =
    leave_token-IsValid now p.key verdict scope (settled_queue id verdict scope p q)
      (settled_queue-IsValid id verdict scope p q v found (ground arith))

answer_at-IsValid :
    (now id : ℕ) (verdict : Verdict) (scope : RuleScope) (o : Option Prompt) (q : PromptQueue)
    → IsValid q
    → get id q.prompts ≡ o
    → IsValid (answer_at now id verdict scope o q).1
unfolding answer_at
answer_at-IsValid now id verdict scope none q v found = v
answer_at-IsValid now id verdict scope (some p) q v found =
    answer_prompt-IsValid now id verdict scope p p.state q v found refl

-- An answer keeps the queue well formed: answered prompts carry their verdict and scope, no key is waited for without its pending prompt, and no two prompts wait for one key.
pub answer-IsValid :
    (now now' id : ℕ) (verdict : Verdict) (scope : RuleScope) (q : PromptQueue)
    → IsValid q
    → IsValid (answer now now' id verdict scope q).1
unfolding answer
answer-IsValid now now' id verdict scope q v =
    answer_at-IsValid now' id verdict scope (get id (expire now q).prompts) (expire now q)
      (expire-IsValid now q v) refl
