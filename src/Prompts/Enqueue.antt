-- ===== src/Prompts/Enqueue.antt =====
-- Asking the operator: `enqueue` keeps the queue well formed, asks once for a key, and holds no more
-- questions than its capacity.
use inter_fire.Prelude.{
  ℕ, ◌+◌, ◌-◌, ◌^◌, ◌≤◌, ◌<◌, ◌≡◌, refl, ◌∙◌, sym, ap, inl, inr, ◌⊎◌, ◌≢◌, Bool, true, false,
  Option, none, some, [], ◌∷◌, arith, eq_nat, ◌==◌, ==_iff, if◌then◌else◌, nat_eq, nat_eq_iff, leb,
  get, contains, length, get-insert, length-insert-le, Bool-cases, Option-cases,
  keys-insert-IsNodup, contains-append, is_some,
}
use inter_fire.Prompts.{
  Prompt, PromptKey, eq_prompt_key, PromptQueue, is_pending, is_due, expire, enqueue, enqueue_at,
  push_prompt, new_prompt, created, deduped, full, EnqueueOutcome,
}
use inter_fire.Prompts.Invariant.{IsValid, IsKeyed-insert}
use inter_fire.Prompts.Expiry.{expire-IsValid, by_key-expire, not_due}

-- No id of the queue is the next one.
next_id_new : (q : PromptQueue) → IsValid q → get q.next_id q.prompts ≡ none
next_id_new q v = elim (Option-cases (get q.next_id q.prompts)) [
  | inl e ↦ e
  | inr (p, e) ↦
      let below : q.next_id < q.next_id = v.below q.next_id (ap is_some e) in ground arith
]

module _ (now : ℕ) (key : PromptKey) (q : PromptQueue) (v : IsValid q) where
  get-push_prompt :
      (id : ℕ)
      → get id (push_prompt now key q).prompts
        ≡ (if nat_eq q.next_id id then some (new_prompt now key q) else get id q.prompts)
  unfolding push_prompt
  get-push_prompt id = get-insert q.next_id id (new_prompt now key q) q.prompts

  push_prompt-was :
      (id : ℕ) (p : Prompt)
      → get id (push_prompt now key q).prompts ≡ some p
      → ((q.next_id ≡ id) × (new_prompt now key q ≡ p))
        ⊎ ((q.next_id ≢ id) × (get id q.prompts ≡ some p))
  push_prompt-was id p h = elim (Bool-cases (nat_eq q.next_id id)) [
    | inl t ↦ inl (ground (arith, nat_eq_iff q.next_id id), ground (arith, get-push_prompt id))
    | inr f ↦
        inr ((λ e. ground (arith, nat_eq_iff q.next_id id)), ground (arith, get-push_prompt id))
  ]

  push_prompt-asked :
      (k : PromptKey) (id : ℕ)
      → get k (push_prompt now key q).pending_by_key ≡ some id
      → (p : Prompt) × (get id (push_prompt now key q).prompts ≡ some p)
        × (is_pending p.state ≡ true)
        × (p.key ≡ k)
  unfolding push_prompt
  push_prompt-asked k id h = elim (Bool-cases (key == k)) [
    | inl t ↦
        let same : some q.next_id ≡ some id =
          sym (
            get-insert key k q.next_id q.pending_by_key
            ∙ ap (λ b. if b then some q.next_id else get k q.pending_by_key) t)
          ∙ h in
        (
          new_prompt now key q,
          ground (arith, get-push_prompt id, nat_eq_iff q.next_id id),
          refl,
          (==_iff key k).0 t,
        )
    | inr f ↦
        let there : get k q.pending_by_key ≡ some id =
          sym (
            get-insert key k q.next_id q.pending_by_key
            ∙ ap (λ b. if b then some q.next_id else get k q.pending_by_key) f)
          ∙ h in
        kept (v.asked k id there)
  ]
    where
      kept :
          ((p : Prompt) × (get id q.prompts ≡ some p) × (is_pending p.state ≡ true) × (p.key ≡ k))
          → (p : Prompt) × (get id (push_prompt now key q).prompts ≡ some p)
            × (is_pending p.state ≡ true)
            × (p.key ≡ k)
      kept (p, found, waits, same) =
          let below : id < q.next_id = v.below id (ap is_some found) in
          (p, ground (arith, get-push_prompt id, nat_eq_iff q.next_id id), waits, same)

  push_prompt-waiting :
      get key q.pending_by_key ≡ none
      → (id : ℕ) (p : Prompt) → get id (push_prompt now key q).prompts ≡ some p
      → is_pending p.state ≡ true
      → (get p.key (push_prompt now key q).pending_by_key ≡ some id)
        × (contains id (push_prompt now key q).order ≡ true)
  unfolding push_prompt
  push_prompt-waiting new id p h w = elim (push_prompt-was id p h) [
    | inl (at, is) ↦ (
      get-insert key p.key q.next_id q.pending_by_key ∙ ground (arith, ==_iff key p.key),
      ground (arith, contains-append id q.order (q.next_id ∷ []), nat_eq_iff id q.next_id),
    )
    | inr (ne, was) ↦
        let there : get p.key q.pending_by_key ≡ some id = (v.waiting id p was w).0 in
        let listed : contains id q.order ≡ true = (v.waiting id p was w).1 in
        let other : key ≢ p.key = λ e.
          let gone : none ≡ some id = sym new ∙ ap (λ k. get k q.pending_by_key) e ∙ there in cc in
        (
          get-insert key p.key q.next_id q.pending_by_key ∙ ground (arith, ==_iff key p.key),
          ground (arith, contains-append id q.order (q.next_id ∷ [])),
        )
  ]

  push_prompt-IsValid :
      q.next_id < 2 ^ 64 - 1
      → get key q.pending_by_key ≡ none
      → length q.pending_by_key < q.capacity
      → IsValid (push_prompt now key q)
  push_prompt-IsValid small new room = record {
    positive = unfold push_prompt in v.positive;
    unique =
        unfold push_prompt in
        keys-insert-IsNodup q.next_id (new_prompt now key q) q.prompts v.unique;
    keyed =
        unfold push_prompt in
        IsKeyed-insert q.next_id (new_prompt now key q) q.prompts v.keyed refl;
    below = λ id h.
        unfold push_prompt in
        ground (
          arith,
          get-insert q.next_id id (new_prompt now key q) q.prompts,
          nat_eq_iff q.next_id id,
          v.below id,
        );
    asked = push_prompt-asked;
    waiting = push_prompt-waiting new;
    bounded =
        unfold push_prompt in omega (arith, room, length-insert-le key q.next_id q.pending_by_key);
    settled = λ id p h a. elim (push_prompt-was id p h) [
      | inl (at, is) ↦ cc
      | inr (ne, was) ↦ v.settled id p was a
    ];
  }

pub enqueue_at-IsValid :
    (now : ℕ) (key : PromptKey) (o : Option ℕ) (q : PromptQueue)
    → IsValid q
    → q.next_id < 2 ^ 64 - 1
    → get key q.pending_by_key ≡ o
    → IsValid (enqueue_at now key o q).1
unfolding enqueue_at
enqueue_at-IsValid now key (some id) q v small h = v
enqueue_at-IsValid now key none q v small h =
    elim (Bool-cases (leb q.capacity (length q.pending_by_key))) [
      | inl t ↦ rw t v
      | inr f ↦ rw f (push_prompt-IsValid now key q v small h (ground (arith)))
    ]

expire-next_id : (now : ℕ) (q : PromptQueue) → (expire now q).next_id ≡ q.next_id
unfolding expire
expire-next_id now q = refl

expire-ttl : (now : ℕ) (q : PromptQueue) → (expire now q).ttl ≡ q.ttl
unfolding expire
expire-ttl now q = refl

-- Asking keeps the queue well formed, as long as the ids have not run out.
pub enqueue-IsValid :
    (now now' : ℕ) (key : PromptKey) (q : PromptQueue)
    → IsValid q
    → q.next_id < 2 ^ 64 - 1
    → IsValid (enqueue now now' key q).1
unfolding enqueue
enqueue-IsValid now now' key q v small =
    enqueue_at-IsValid now' key (get key (expire now q).pending_by_key) (expire now q)
      (expire-IsValid now q v) (omega (arith, expire-next_id now q, small)) refl

-- Behind expiry, a key is still waited for with the pending prompt that is not due.
by_key-kept :
    (now id : ℕ) (p : Prompt) (q : PromptQueue)
    → IsValid q
    → get id q.prompts ≡ some p
    → is_pending p.state ≡ true
    → is_due now p ≡ false
    → get p.key (expire now q).pending_by_key ≡ some id
by_key-kept now id p q v found waits early =
    by_key-expire now p.key q
    ∙ ap (λ b. if b then none else get p.key q.pending_by_key)
        (not_due now id p q v found waits early)
    ∙ (v.waiting id p found waits).0

enqueue-deduped :
    (now now' id : ℕ) (p : Prompt) (q : PromptQueue)
    → IsValid q
    → get id q.prompts ≡ some p
    → is_pending p.state ≡ true
    → is_due now p ≡ false
    → enqueue now now' p.key q ≡ (deduped id, expire now q)
unfolding enqueue enqueue_at
enqueue-deduped now now' id p q v found waits early =
    ap (λ o. enqueue_at now' p.key o (expire now q)) (by_key-kept now id p q v found waits early)

enqueue_at-created :
    (now id : ℕ) (key : PromptKey) (o : Option ℕ) (q : PromptQueue)
    → (enqueue_at now key o q).0 ≡ created id
    → (o ≡ none)
      × (q.next_id ≡ id)
      × ((enqueue_at now key o q).1 ≡ push_prompt now key q)
      × (length q.pending_by_key < q.capacity)
unfolding enqueue_at
enqueue_at-created now id key (some j) q h = cc
enqueue_at-created now id key none q h =
    elim (Bool-cases (leb q.capacity (length q.pending_by_key))) [
      | inl t ↦ let no : full ≡ created id = sym (ap first t) ∙ h in cc
      | inr f ↦ (refl, ground (arith, sym (ap first f) ∙ h), rw f refl, ground arith)
    ]
  where
    first : Bool → EnqueueOutcome
    first b =
        let x : EnqueueOutcome × PromptQueue =
          if b then (full, q) else (created q.next_id, push_prompt now key q) in
        x.0

-- A question that has been asked is not asked again while it waits: for its whole time to live, the same key is answered with the id that the question was given.
pub enqueue_twice :
    (now now' t t' id : ℕ) (key : PromptKey) (q : PromptQueue)
    → IsValid q
    → q.next_id < 2 ^ 64 - 1
    → (enqueue now now' key q).0 ≡ created id
    → t ≤ now' + q.ttl
    → (enqueue t t' key (enqueue now now' key q).1).0 ≡ deduped id
unfolding enqueue
enqueue_twice now now' t t' id key q v small h early =
    let q1 = expire now q in
    let (new, next, is, room) = enqueue_at-created now' id key (get key q1.pending_by_key) q1 h in
    let v1 =
      push_prompt-IsValid now' key q1 (expire-IsValid now q v)
        (omega (arith, expire-next_id now q, small)) new room in
    let asked =
      enqueue-deduped t t' q1.next_id (new_prompt now' key q1) (push_prompt now' key q1) v1
        (ground (
          arith,
          get-push_prompt now' key q1 (expire-IsValid now q v) q1.next_id,
          nat_eq_iff q1.next_id q1.next_id,
        ))
        refl (ground (arith, expire-ttl now q)) in
    ap (λ x. (enqueue t t' key x).0) is ∙ ap (λ x. x.0) asked ∙ ap deduped next
