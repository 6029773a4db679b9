-- ===== src/Prompts/Expiry.antt =====
-- Expiry: exactly the pending prompts that are due become expired, and their keys are waited for no more.
use inter_fire.Prelude.{
  ℕ, ◌≡◌, refl, ◌∙◌, sym, ap, inl, inr, ◌≢◌, true, false, Option, none, some, arith, eq_nat,
  if◌then◌else◌, get, contains, Bool-cases, contains-filter,
}
use inter_fire.Prompts.{
  Prompt, PromptKey, eq_prompt_key, PromptQueue, PromptState, is_pending, is_due, due_prompts,
  expire_each, expire, pending_at,
}
use inter_fire.Prompts.Invariant.{IsValid}
use inter_fire.Prompts.Marking.{
  due_keys, marked, due_at, get-expire_each, by_key-expire_each, contains-due, key_due, due_key,
  expire_each-IsKeyed, length-expire_each,
}

-- A prompt behind expiry: what it was, marked if it was due.
pub get-expire :
    (now id : ℕ) (q : PromptQueue)
    → IsValid q
    → get id (expire now q).prompts
      ≡ (if due_at now (get id q.prompts) then marked (get id q.prompts) else get id q.prompts)
unfolding expire
get-expire now id q v =
    get-expire_each (due_prompts now q.prompts) q.prompts q.pending_by_key id
    ∙ ap (λ b. if b then marked (get id q.prompts) else get id q.prompts)
        (contains-due now id q.prompts v.keyed v.unique)

-- A prompt that is not expired behind expiry was there, and was not due.
pub expire-was :
    (now id : ℕ) (p : Prompt) (q : PromptQueue)
    → IsValid q
    → get id (expire now q).prompts ≡ some p
    → p.state ≢ PromptState.expired
    → (get id q.prompts ≡ some p) × (is_due now p ≡ false)
expire-was now id p q v h s = was (get id q.prompts) (sym (get-expire now id q v) ∙ h)
  where
    was :
        (o : Option Prompt)
        → (if due_at now o then marked o else o) ≡ some p
        → (o ≡ some p) × (is_due now p ≡ false)
    was none e = cc
    was (some r) e = ground (arith, s)

pub by_key-expire :
    (now : ℕ) (key : PromptKey) (q : PromptQueue)
    → get key (expire now q).pending_by_key ≡ (
        if contains key (due_keys (due_prompts now q.prompts))
        then none
        else get key q.pending_by_key)
unfolding expire
by_key-expire now key q =
    by_key-expire_each (due_prompts now q.prompts) q.prompts q.pending_by_key key

-- The key of a pending prompt that is not due is not among the due keys.
pub not_due :
    (now id : ℕ) (p : Prompt) (q : PromptQueue)
    → IsValid q
    → get id q.prompts ≡ some p
    → is_pending p.state ≡ true
    → is_due now p ≡ false
    → contains p.key (due_keys (due_prompts now q.prompts)) ≡ false
not_due now id p q v h w d =
    elim (Bool-cases (contains p.key (due_keys (due_prompts now q.prompts)))) [
      | inr f ↦ f
      | inl t ↦
          let (id', p', found, due, same) = due_key now p.key q.prompts v.unique t in
          let there = (v.waiting id p h w).0 in
          let there' = (v.waiting id' p' found (ground arith)).0 in
          let e : some id ≡ some id' =
            sym there ∙ ap (λ k. get k q.pending_by_key) (sym same) ∙ there' in
          ground arith
    ]

-- A prompt that is not due is as it was.
pub expire-kept :
    (now id : ℕ) (p : Prompt) (q : PromptQueue)
    → IsValid q
    → get id q.prompts ≡ some p
    → is_due now p ≡ false
    → get id (expire now q).prompts ≡ some p
expire-kept now id p q v h d = get-expire now id q v ∙ rw (h, d) refl

asked_in_time :
    (now id : ℕ) (p : Prompt) (q : PromptQueue)
    → get id q.prompts ≡ some p
    → get p.key (expire now q).pending_by_key ≡ some id
    → is_due now p ≡ false
asked_in_time now id p q found h = elim (Bool-cases (is_due now p)) [
  | inr f ↦ f
  | inl t ↦
      let gone : none ≡ some id =
        sym (
          ap (λ b. if b then none else get p.key q.pending_by_key)
            (key_due now id p q.prompts found t))
        ∙ sym (by_key-expire now p.key q)
        ∙ h in
      ground arith
]

asked-expire :
    (now : ℕ) (q : PromptQueue)
    → IsValid q
    → (key : PromptKey) (id : ℕ) → get key (expire now q).pending_by_key ≡ some id
    → (p : Prompt) × (get id (expire now q).prompts ≡ some p)
      × (is_pending p.state ≡ true)
      × (p.key ≡ key)
asked-expire now q v key id h =
    let there : get key q.pending_by_key ≡ some id = ground (arith, by_key-expire now key q) in
    go (v.asked key id there)
  where
    go :
        ((p : Prompt) × (get id q.prompts ≡ some p) × (is_pending p.state ≡ true) × (p.key ≡ key))
        → (p : Prompt) × (get id (expire now q).prompts ≡ some p)
          × (is_pending p.state ≡ true)
          × (p.key ≡ key)
    go (p, found, waits, same) = (
      p,
      expire-kept now id p q v found
          (asked_in_time now id p q found (ap (λ k. get k (expire now q).pending_by_key) same ∙ h)),
      waits,
      same,
    )

waiting-expire :
    (now : ℕ) (q : PromptQueue)
    → IsValid q
    → (id : ℕ) (p : Prompt) → get id (expire now q).prompts ≡ some p
    → is_pending p.state ≡ true
    → (get p.key (expire now q).pending_by_key ≡ some id)
      × (contains id (expire now q).order ≡ true)
unfolding expire
waiting-expire now q v id p h w =
    let (found, early) = expire-was now id p q v h (λ e. ground arith) in
    let (there, listed) = v.waiting id p found w in
    (
      by_key-expire now p.key q
          ∙ ap (λ b. if b then none else get p.key q.pending_by_key)
              (not_due now id p q v found w early)
          ∙ there,
      ground (
        arith,
        contains-filter
            (λ j.
              pending_at
                (get j (expire_each (due_prompts now q.prompts) q.prompts q.pending_by_key).0))
            id q.order,
      ),
    )

pub expire-IsValid : (now : ℕ) (q : PromptQueue) → IsValid q → IsValid (expire now q)
expire-IsValid now q v =
    let kept =
      expire_each-IsKeyed (due_prompts now q.prompts) q.prompts q.pending_by_key v.keyed v.unique in
    record {
      positive = unfold expire in v.positive;
      unique = unfold expire in kept.1;
      keyed = unfold expire in kept.0;
      below = λ id h. unfold expire in v.below id (ground (arith, get-expire now id q v));
      asked = asked-expire now q v;
      waiting = waiting-expire now q v;
      bounded =
          unfold expire in
          omega (
            arith,
            length-expire_each (due_prompts now q.prompts) q.prompts q.pending_by_key,
            v.bounded,
          );
      settled = λ id p h a. v.settled id p (expire-was now id p q v h (λ e. cc)).0 a;
    }
