-- ===== src/Prompts/Tokens.antt =====
-- The tokens that an answer for one connect leaves: each is spent once.
use inter_fire.Prelude.{
  ℕ, ◌+◌, ◌≡◌, refl, ◌∙◌, ap, inl, inr, Bool, false, not, none, [], ◌∷◌, arith, ◌==◌, ==_iff, leb,
  ltb, Map, get, remove, retain, contains, contains-filter, length, filter, get-remove, Bool-cases,
}
use inter_fire.Prompts.{
  PromptKey, eq_prompt_key, PromptQueue, expire, take_once_allow, consume_once_deny, fresh_token,
}

-- `retain` finds no key that is not there.
get-retain-none :
    (p : PromptKey → ℕ → Bool) (key : PromptKey) (m : Map PromptKey ℕ)
    → get key m ≡ none
    → get key (retain p m) ≡ none
unfolding get retain
get-retain-none p key [] h = refl
get-retain-none p key ((j, w) ∷ m) h = ground (arith, get-retain-none p key m)

-- A once-allow token lets one connect through: whatever the first attempt says, the next one of the same key, at any times, finds no token.
pub take_once_allow_twice :
    (now now' t t' : ℕ) (key : PromptKey) (q : PromptQueue)
    → (take_once_allow t t' key (take_once_allow now now' key q).1).0 ≡ false
unfolding take_once_allow expire
take_once_allow_twice now now' t t' key q =
    let q1 = expire now q in
    let gone : get key (remove key q1.once_allows) ≡ none =
      get-remove key key q1.once_allows ∙ ground (arith, ==_iff key key) in
    ap (fresh_token t' q.ttl) (
      get-retain-none (λ _ inserted. leb t (inserted + q.ttl)) key (remove key q1.once_allows) gone)

-- A once-deny token stops one connect: whatever the first attempt says, the next one of the same key finds no token.
pub consume_once_deny_twice :
    (now t : ℕ) (key : PromptKey) (q : PromptQueue)
    → (consume_once_deny t key (consume_once_deny now key q).1).0 ≡ false
unfolding consume_once_deny expire
consume_once_deny_twice now t key q =
    let q1 = expire now q in
    let kept = filter (λ k. not (k == key)) q1.once_denies in
    let gone : contains key kept ≡ false =
      contains-filter (λ k. not (k == key)) key q1.once_denies ∙ ground (arith, ==_iff key key) in
    elim (Bool-cases (ltb q.capacity (length kept))) [ inl e ↦ rw e refl | inr e ↦ rw e gone ]
