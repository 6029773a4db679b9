-- ===== src/Prompts/Invariant.antt =====
-- What holds of a prompt queue between two operations.
use inter_fire.Prelude.{
  ℕ, ◌≤◌, ◌<◌, ◌≡◌, true, some, [], ◌∷◌, arith, eq_nat, Map, get, insert, remove, has, keys,
  IsNodup, contains, length,
}
use inter_fire.Rules.{Verdict}
use inter_fire.Prompts.{
  Prompt, PromptKey, eq_prompt_key, PromptQueue, RuleScope, is_pending, answered,
}

-- Each prompt stands under its own id.
abbrev pub IsKeyed : Map ℕ Prompt → Type 0
IsKeyed [] = Unit
IsKeyed ((id, prompt) ∷ m) = (prompt.id ≡ id) × IsKeyed m

pub record IsValid (q : PromptQueue) : Type 0 where
  pub positive : 0 < q.capacity
  pub unique : IsNodup (keys q.prompts)
  pub keyed : IsKeyed q.prompts
  pub below : (id : ℕ) → has id q.prompts ≡ true → id < q.next_id
  -- A key that is waited for has its pending prompt,
  pub asked :
      (key : PromptKey) (id : ℕ)
      → get key q.pending_by_key ≡ some id
      → (p : Prompt) × (get id q.prompts ≡ some p) × (is_pending p.state ≡ true) × (p.key ≡ key)
  -- and a pending prompt is the one of its key and stands in the order.
  pub waiting :
      (id : ℕ) (p : Prompt)
      → get id q.prompts ≡ some p
      → is_pending p.state ≡ true
      → (get p.key q.pending_by_key ≡ some id) × (contains id q.order ≡ true)
  pub bounded : length q.pending_by_key ≤ q.capacity
  pub settled :
      (id : ℕ) (p : Prompt)
      → get id q.prompts ≡ some p
      → p.state ≡ answered
      → (v : Verdict) × (s : RuleScope) × (p.answer_verdict ≡ some v) × (p.answer_scope ≡ some s)

pub IsKeyed-get :
    (id : ℕ) (p : Prompt) (m : Map ℕ Prompt) → IsKeyed m → get id m ≡ some p → p.id ≡ id
unfolding get
IsKeyed-get id p [] k h = ground arith
IsKeyed-get id p ((j, q) ∷ m) k h = ground (arith, IsKeyed-get id p m k.1)

IsKeyed-remove : (id : ℕ) (m : Map ℕ Prompt) → IsKeyed m → IsKeyed (remove id m)
unfolding remove
IsKeyed-remove id [] k = k
IsKeyed-remove id ((j, q) ∷ m) k = ground (arith, IsKeyed-remove id m k.1)

pub IsKeyed-insert :
    (id : ℕ) (p : Prompt) (m : Map ℕ Prompt) → IsKeyed m → p.id ≡ id → IsKeyed (insert id p m)
unfolding insert
IsKeyed-insert id p m k e = (e, IsKeyed-remove id m k)
