-- ===== src/Prompts.antt =====
-- crates/interfire-daemon/src/prompts.rs: the questions that wait for an operator, their answers and
-- the tokens that an answer for one connect leaves. Each reading of the clock is an argument.
pub mod Invariant
pub mod Marking
pub mod Expiry
pub mod Enqueue
pub mod Settled
pub mod Answers
pub mod Tokens
pub mod Tests
use inter_fire.Prelude.{
  ℕ, ◌+◌, ◌-◌, ◌^◌, ◌≡◌, ◌↔◌, Bool, true, false, not, ◌&&◌, Option, none, some, List, [], ◌∷◌, ◌++◌,
  arith, Text, text_eq, Eq, eq_text, eq_nat, nat_eq, ◌==◌, if◌then◌else◌, leb, ltb, filter,
  contains, length, min, Map, get, insert, remove, retain, has, ==_iff, text_eq_iff,
}
use inter_fire.Rules.{Verdict, allow, deny}

-- crates/interfire-proto/src/lib.rs, `RuleScope` and `PromptState`
pub data RuleScope : Type 0 where
  once session permanent : RuleScope

pub data PromptState : Type 0 where
  pending answered expired : PromptState

pub record PromptKey : Type 0 where
  pub executable : Text
  pub ipv4 : ℕ
  pub port : ℕ

abbrev prompt_key_beq : PromptKey → PromptKey → Bool
prompt_key_beq a b =
    text_eq a.executable b.executable && nat_eq a.ipv4 b.ipv4 && nat_eq a.port b.port

pub prompt_key_beq_iff : (a b : PromptKey) → (prompt_key_beq a b ≡ true) ↔ (a ≡ b)
prompt_key_beq_iff a b = ground (arith, text_eq_iff a.executable b.executable)

instance abbrev pub eq_prompt_key : Eq PromptKey
eq_prompt_key = record { beq = prompt_key_beq; beq_iff = prompt_key_beq_iff }

pub record Prompt : Type 0 where
  pub id : ℕ
  pub key : PromptKey
  pub state : PromptState
  pub created_at : ℕ
  pub expires_at : ℕ
  pub answer_verdict : Option Verdict
  pub answer_scope : Option RuleScope

pub data EnqueueOutcome : Type 0 where
  created deduped : ℕ → EnqueueOutcome
  full : EnqueueOutcome

pub record Answered : Type 0 where
  pub id : ℕ
  pub key : PromptKey
  pub verdict : Verdict
  pub scope : RuleScope
  pub duplicate : Bool

pub data AnswerError : Type 0 where
  not_found expired : AnswerError

pub data AnswerResult : Type 0 where
  ok : Answered → AnswerResult
  err : AnswerError → AnswerResult

pub record PromptQueue : Type 0 where
  pub capacity : ℕ
  pub ttl : ℕ
  pub next_id : ℕ
  pub order : List ℕ
  pub prompts : Map ℕ Prompt
  pub pending_by_key : Map PromptKey ℕ
  pub once_allows : Map PromptKey ℕ
  pub once_denies : List PromptKey

-- `PromptQueue::new`; the source panics when the capacity is zero.
unfoldable pub new : ℕ → ℕ → PromptQueue
new capacity ttl = record {
  capacity = capacity;
  ttl = ttl;
  next_id = 1;
  order = [];
  prompts = [];
  pending_by_key = [];
  once_allows = [];
  once_denies = [];
}

-- `MAX_PENDING_PROMPTS` and 60 seconds, in milliseconds
unfoldable pub with_defaults : PromptQueue
unfolding new
with_defaults = new 100 60000

abbrev pub is_pending : PromptState → Bool
is_pending pending = true
is_pending _ = false

-- `prompt.state == Pending && now > prompt.expires_at`
abbrev pub is_due : ℕ → Prompt → Bool
is_due now prompt = is_pending prompt.state && ltb prompt.expires_at now

-- The collected pairs of an id and its key
pub due_prompts : ℕ → Map ℕ Prompt → List (ℕ × PromptKey)
due_prompts now [] = []
due_prompts now ((_, prompt) ∷ m) =
    let rest = due_prompts now m in
    if is_due now prompt then (prompt.id, prompt.key) ∷ rest else rest

-- `if let Some(prompt) = self.prompts.get_mut(&id)`
abbrev pub mark_expired : ℕ → Option Prompt → Map ℕ Prompt → Map ℕ Prompt
mark_expired id none m = m
mark_expired id (some prompt) m = insert id (record prompt { state = PromptState.expired }) m

abbrev pub expire_prompt : ℕ → Map ℕ Prompt → Map ℕ Prompt
expire_prompt id m = mark_expired id (get id m) m

-- The loop over the pairs
pub expire_each :
    List (ℕ × PromptKey) → Map ℕ Prompt → Map PromptKey ℕ → Map ℕ Prompt × Map PromptKey ℕ
expire_each [] prompts by_key = (prompts, by_key)
expire_each ((id, key) ∷ due) prompts by_key =
    expire_each due (expire_prompt id prompts) (remove key by_key)

abbrev pub pending_at : Option Prompt → Bool
pending_at none = false
pending_at (some prompt) = is_pending prompt.state

-- `expire`
unfoldable pub expire : ℕ → PromptQueue → PromptQueue
expire now q =
    let (prompts, by_key) = expire_each (due_prompts now q.prompts) q.prompts q.pending_by_key in
    record q {
      prompts = prompts;
      pending_by_key = by_key;
      order = filter (λ id. pending_at (get id prompts)) q.order;
      once_allows = retain (λ _ inserted. leb now (inserted + q.ttl)) q.once_allows;
      once_denies = if ltb q.capacity (length q.once_denies) then [] else q.once_denies;
    }

abbrev pub fresh_token : ℕ → ℕ → Option ℕ → Bool
fresh_token now ttl none = false
fresh_token now ttl (some inserted) = leb now (inserted + ttl)

-- `take_once_allow`: the clock is read by `expire` and for the comparison.
unfoldable pub take_once_allow : ℕ → ℕ → PromptKey → PromptQueue → Bool × PromptQueue
take_once_allow now now' key queue =
    let q = expire now queue in
    (
      fresh_token now' q.ttl (get key q.once_allows),
      record q { once_allows = remove key q.once_allows },
    )

-- `consume_once_deny`
unfoldable pub consume_once_deny : ℕ → PromptKey → PromptQueue → Bool × PromptQueue
consume_once_deny now key queue =
    let q = expire now queue in
    (
      contains key q.once_denies,
      record q { once_denies = filter (λ k. not (k == key)) q.once_denies },
    )

abbrev pub new_prompt : ℕ → PromptKey → PromptQueue → Prompt
new_prompt now key q = record {
  id = q.next_id;
  key = key;
  state = pending;
  created_at = now;
  expires_at = now + q.ttl;
  answer_verdict = none;
  answer_scope = none;
}

-- A new prompt behind the others; `next_id` is a `u64` and saturates.
pub push_prompt : ℕ → PromptKey → PromptQueue → PromptQueue
push_prompt now key q = record q {
  next_id = min (q.next_id + 1) (2 ^ 64 - 1);
  prompts = insert q.next_id (new_prompt now key q) q.prompts;
  order = q.order ++ q.next_id ∷ [];
  pending_by_key = insert key q.next_id q.pending_by_key;
}

-- The enqueue by what the key waits for
pub enqueue_at : ℕ → PromptKey → Option ℕ → PromptQueue → EnqueueOutcome × PromptQueue
unfolding push_prompt
enqueue_at now key (some id) q = (deduped id, q)
enqueue_at now key none q =
    if leb q.capacity (length q.pending_by_key)
    then (full, q)
    else (created q.next_id, push_prompt now key q)

-- `enqueue`: the clock is read by `expire` and for the prompt.
unfoldable pub enqueue : ℕ → ℕ → PromptKey → PromptQueue → EnqueueOutcome × PromptQueue
unfolding enqueue_at
enqueue now now' key queue =
    let q = expire now queue in enqueue_at now' key (get key q.pending_by_key) q

pending_rows : Map ℕ Prompt → List ℕ → List Prompt
pending_rows prompts [] = []
pending_rows prompts (id ∷ order) =
    let rest = pending_rows prompts order in
    elim (get id prompts) [
      | none ↦ rest
      | some prompt ↦ if is_pending prompt.state then prompt ∷ rest else rest
    ]

-- `list_pending`: oldest first.
unfoldable pub list_pending : ℕ → PromptQueue → List Prompt × PromptQueue
unfolding pending_rows
list_pending now queue = let q = expire now queue in (pending_rows q.prompts q.order, q)

abbrev pub or_given {ℓ} : {A : Type ℓ} → Option A → A → A
or_given none a = a
or_given (some b) a = b

-- The token that an answer for one connect leaves
pub leave_token : ℕ → PromptKey → Verdict → RuleScope → PromptQueue → PromptQueue
leave_token now key allow once q = record q { once_allows = insert key now q.once_allows }
leave_token now key deny once q = record q {
  once_denies = if contains key q.once_denies then q.once_denies else key ∷ q.once_denies;
}
leave_token now key _ _ q = q

-- The answer to a prompt that is found, by its state
pub answer_prompt :
    ℕ → ℕ → Verdict → RuleScope → Prompt → PromptState → PromptQueue → AnswerResult × PromptQueue
answer_prompt now id verdict scope prompt PromptState.expired q = (err AnswerError.expired, q)
answer_prompt now id verdict scope prompt answered q = (
  ok (record {
    id = id;
    key = prompt.key;
    verdict = or_given prompt.answer_verdict verdict;
    scope = or_given prompt.answer_scope scope;
    duplicate = true;
  }),
  q,
)
answer_prompt now id verdict scope prompt pending q =
    let done : Prompt = record prompt {
      state = answered;
      answer_verdict = some verdict;
      answer_scope = some scope;
    } in
    (
      ok (record {
        id = id;
        key = prompt.key;
        verdict = verdict;
        scope = scope;
        duplicate = false;
      }),
      leave_token now prompt.key verdict scope (record q {
        prompts = insert id done q.prompts;
        pending_by_key = remove prompt.key q.pending_by_key;
      }),
    )

-- The answer by what stands under the id
pub answer_at :
    ℕ → ℕ → Verdict → RuleScope → Option Prompt → PromptQueue → AnswerResult × PromptQueue
unfolding answer_prompt leave_token
answer_at now id verdict scope none q = (err not_found, q)
answer_at now id verdict scope (some prompt) q =
    answer_prompt now id verdict scope prompt prompt.state q

-- `answer`: the clock is read by `expire` and for the token.
unfoldable pub answer : ℕ → ℕ → ℕ → Verdict → RuleScope → PromptQueue → AnswerResult × PromptQueue
unfolding answer_at
answer now now' id verdict scope queue =
    let q = expire now queue in answer_at now' id verdict scope (get id q.prompts) q
