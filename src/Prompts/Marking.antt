-- ===== src/Prompts/Marking.antt =====
-- Expiry marks the prompts that are due, and forgets the keys that they were asked under.
use inter_fire.Prelude.{
  ℕ, ◌≤◌, ◌≡◌, refl, ◌∙◌, inl, inr, Bool, true, false, ◌&&◌, ◌||◌, Option, none, some, List, [],
  ◌∷◌, arith, eq_nat, ◌==◌, ==_iff, if◌then◌else◌, nat_eq, nat_eq_iff, Map, get, remove, keys,
  IsNodup, contains, length, contains-keys, get-remove, get-insert, length-remove-le, Bool-cases,
  keys-insert-IsNodup,
}
use inter_fire.Prompts.{
  Prompt, PromptKey, eq_prompt_key, PromptState, is_due, due_prompts, expire_prompt, mark_expired,
  expire_each,
}
use inter_fire.Prompts.Invariant.{IsKeyed, IsKeyed-get, IsKeyed-insert}

abbrev pub ids : List (ℕ × PromptKey) → List ℕ
ids [] = []
ids ((id, _) ∷ due) = id ∷ ids due

abbrev pub due_keys : List (ℕ × PromptKey) → List PromptKey
due_keys [] = []
due_keys ((_, key) ∷ due) = key ∷ due_keys due

abbrev pub marked : Option Prompt → Option Prompt
marked none = none
marked (some prompt) = some (record prompt { state = PromptState.expired })

abbrev pub due_at : ℕ → Option Prompt → Bool
due_at now none = false
due_at now (some prompt) = is_due now prompt

get-mark_expired :
    (id j : ℕ) (o : Option Prompt) (m : Map ℕ Prompt)
    → get id m ≡ o
    → get j (mark_expired id o m) ≡ (if nat_eq id j then marked (get j m) else get j m)
get-mark_expired id j none m h = ground (arith, nat_eq_iff id j)
get-mark_expired id j (some p) m h =
    ground (arith, nat_eq_iff id j, get-insert id j (record p { state = PromptState.expired }) m)

pub get-expire_each :
    (due : List (ℕ × PromptKey)) (m : Map ℕ Prompt) (by_key : Map PromptKey ℕ) (j : ℕ)
    → get j (expire_each due m by_key).0
      ≡ (if contains j (ids due) then marked (get j m) else get j m)
unfolding expire_each
get-expire_each [] m by_key j = refl
get-expire_each ((id, key) ∷ due) m by_key j =
    get-expire_each due (expire_prompt id m) (remove key by_key) j
    ∙ step (contains j (ids due)) (get j m) (get-mark_expired id j (get id m) m refl)
  where
    step :
        (c : Bool) (o : Option Prompt) {x : Option Prompt}
        → x ≡ (if nat_eq id j then marked o else o)
        → (if c then marked x else x) ≡ (if nat_eq j id || c then marked o else o)
    step true none e = ground (arith, nat_eq_iff id j, nat_eq_iff j id)
    step true (some p) e = ground (arith, nat_eq_iff id j, nat_eq_iff j id)
    step false o e = ground (arith, nat_eq_iff id j, nat_eq_iff j id)

pub by_key-expire_each :
    (due : List (ℕ × PromptKey)) (m : Map ℕ Prompt) (by_key : Map PromptKey ℕ) (k : PromptKey)
    → get k (expire_each due m by_key).1
      ≡ (if contains k (due_keys due) then none else get k by_key)
unfolding expire_each
by_key-expire_each [] m by_key k = refl
by_key-expire_each ((id, key) ∷ due) m by_key k = ground (
  arith,
  by_key-expire_each due (expire_prompt id m) (remove key by_key) k,
  get-remove key k by_key,
  ==_iff key k,
  ==_iff k key,
)

pub contains-due :
    (now id : ℕ) (m : Map ℕ Prompt)
    → IsKeyed m
    → IsNodup (keys m)
    → contains id (ids (due_prompts now m)) ≡ due_at now (get id m)
unfolding due_prompts get
contains-due now id [] k u = refl
contains-due now id ((j, p) ∷ m) k u = ground (
  arith,
  contains-due now id m k.1 u.1,
  contains-keys j m,
  nat_eq_iff j id,
  nat_eq_iff id j,
  nat_eq_iff id p.id,
)

pub key_due :
    (now id : ℕ) (p : Prompt) (m : Map ℕ Prompt)
    → get id m ≡ some p
    → is_due now p ≡ true
    → contains p.key (due_keys (due_prompts now m)) ≡ true
unfolding due_prompts get
key_due now id p [] h d = cc
key_due now id p ((j, q) ∷ m) h d = ground (arith, key_due now id p m, ==_iff p.key q.key)

pub due_key :
    (now : ℕ) (key : PromptKey) (m : Map ℕ Prompt)
    → IsNodup (keys m)
    → contains key (due_keys (due_prompts now m)) ≡ true
    → (id : ℕ) × (p : Prompt) × (get id m ≡ some p) × (is_due now p ≡ true) × (p.key ≡ key)
unfolding due_prompts get
due_key now key [] u h = cc
due_key now key ((j, q) ∷ m) u h = elim (Bool-cases (is_due now q && key == q.key)) [
  | inl t ↦ (j, q, ground (arith, nat_eq_iff j j), ground arith, ground (arith, ==_iff key q.key))
  | inr f ↦
      let (id, p, found, due, same) = due_key now key m u.1 (ground arith) in
      (id, p, ground (arith, nat_eq_iff j id, contains-keys j m), due, same)
]

mark_expired-IsKeyed :
    (id : ℕ) (o : Option Prompt) (m : Map ℕ Prompt)
    → get id m ≡ o
    → IsKeyed m
    → IsNodup (keys m)
    → IsKeyed (mark_expired id o m) × IsNodup (keys (mark_expired id o m))
mark_expired-IsKeyed id none m h k u = (k, u)
mark_expired-IsKeyed id (some p) m h k u =
    let p' = record p { state = PromptState.expired } in
    (IsKeyed-insert id p' m k (IsKeyed-get id p m k h), keys-insert-IsNodup id p' m u)

pub expire_each-IsKeyed :
    (due : List (ℕ × PromptKey)) (m : Map ℕ Prompt) (by_key : Map PromptKey ℕ)
    → IsKeyed m
    → IsNodup (keys m)
    → IsKeyed (expire_each due m by_key).0 × IsNodup (keys (expire_each due m by_key).0)
unfolding expire_each
expire_each-IsKeyed [] m by_key k u = (k, u)
expire_each-IsKeyed ((id, key) ∷ due) m by_key k u =
    let (k', u') = mark_expired-IsKeyed id (get id m) m refl k u in
    expire_each-IsKeyed due (expire_prompt id m) (remove key by_key) k' u'

pub length-expire_each :
    (due : List (ℕ × PromptKey)) (m : Map ℕ Prompt) (by_key : Map PromptKey ℕ)
    → length (expire_each due m by_key).1 ≤ length by_key
unfolding expire_each
length-expire_each [] m by_key = omega arith
length-expire_each ((id, key) ∷ due) m by_key = omega (
  arith,
  length-expire_each due (expire_prompt id m) (remove key by_key),
  length-remove-le key by_key,
)
