-- ===== src/Ipc/Mutations.antt =====
-- crates/interfire-daemon/src/ipc.rs: `mutate`, `prompt_answer` and `persist_answered_rule`.
use inter_fire.Prelude.{
  ℕ, Bool, true, false, not, ◌&&◌, Option, none, some, Text, lit, eq_text, eq_nat, if◌then◌else◌,
}
use inter_fire.Rules.{RuleSet, Scope, Verdict, Inserted, insert, remove}
use inter_fire.Rules.Store.{Toml, save}
use inter_fire.Prompts.{RuleScope, Answered, AnswerResult, AnswerError, answer}
use inter_fire.Ipc.{
  Response, pong, error, Request, Server, peer_may_mutate, rule_verdict, answer_verdict,
  answer_scope, tcp_rule, answered_rule, saved_response,
}

abbrev pub is_kept : RuleScope → Bool
is_kept RuleScope.once = false
is_kept _ = true

module _ (toml : Toml) where
  -- `shared.store.save` of the rules as they are
  unfoldable pub save_rules : Request → Server toml → Response × Server toml
  save_rules request s =
      let (saved, disk) = save toml request.save_calls s.rules s.disk in
      (saved_response saved, record s { disk = disk })

  abbrev pub save_if_permanent : RuleScope → Request → Server toml → Response × Server toml
  save_if_permanent RuleScope.permanent request s = save_rules request s
  save_if_permanent _ request s = (pong, s)

  abbrev pub insert_answered : Inserted → RuleScope → Request → Server toml → Response × Server toml
  insert_answered (Inserted.err e) scope request s = (error (lit "invalid_rule"), s)
  insert_answered (Inserted.ok rules) scope request s =
      save_if_permanent scope request (record s { rules = rules })

  -- `persist_answered_rule`
  unfoldable pub persist_answered_rule : Request → Answered → Server toml → Response × Server toml
  unfolding save_rules answered_rule
  persist_answered_rule request answered s =
      if s.poisoned.rules
      then (error (lit "lock_poisoned"), s)
      else insert_answered (insert (answered_rule s.rules answered) s.rules) answered.scope request
          s

  -- The part of `prompt_answer` behind the answer of the queue
  unfoldable pub after_answer : Request → AnswerResult → Server toml → Response × Server toml
  unfolding persist_answered_rule
  after_answer request (AnswerResult.err AnswerError.not_found) s =
      (error (lit "prompt_not_found"), s)
  after_answer request (AnswerResult.err AnswerError.expired) s = (error (lit "prompt_expired"), s)
  after_answer request (AnswerResult.ok answered) s =
      if not answered.duplicate && is_kept answered.scope
      then persist_answered_rule request answered s
      else (pong, s)

  abbrev pub answer_with :
      Request → ℕ → Option Verdict → Option RuleScope → Server toml → Response × Server toml
  answer_with request id none scope s = (error (lit "invalid_verdict"), s)
  answer_with request id (some verdict) none s = (error (lit "invalid_scope"), s)
  answer_with request id (some verdict) (some scope) s =
      let (result, prompts) = answer request.now request.later id verdict scope s.prompts in
      if s.poisoned.prompts
      then (error (lit "lock_poisoned"), s)
      else after_answer request result (record s { prompts = prompts })

  -- `prompt_answer`
  unfoldable pub prompt_answer : Request → ℕ → Text → Text → Server toml → Response × Server toml
  unfolding after_answer
  prompt_answer request id verdict scope s =
      if not (peer_may_mutate request.host request.peer)
      then (error (lit "unauthorized"), s)
      else answer_with request id (answer_verdict verdict) (answer_scope scope) s

  abbrev pub add_inserted : Inserted → Request → Server toml → Response × Server toml
  add_inserted (Inserted.err e) request s = (error (lit "invalid_rule"), s)
  add_inserted (Inserted.ok rules) request s = save_rules request (record s { rules = rules })

  abbrev pub add_with :
      Request → ℕ → Text → ℕ → Option Verdict → Server toml → Response × Server toml
  add_with request id executable port none s = (error (lit "invalid_verdict"), s)
  add_with request id executable port (some verdict) s =
      add_inserted (insert (tcp_rule id executable port verdict Scope.permanent) s.rules) request s

  abbrev pub delete_with : Request → RuleSet × Bool → Server toml → Response × Server toml
  delete_with request (rules, true) s = save_rules request (record s { rules = rules })
  delete_with request (rules, false) s = (error (lit "rule_not_found"), record s { rules = rules })

  -- `mutate`, of `Mutate::Add`
  unfoldable pub rule_add : Request → ℕ → Text → Text → ℕ → Server toml → Response × Server toml
  unfolding save_rules
  rule_add request id executable verdict port s =
      if not (peer_may_mutate request.host request.peer)
      then (error (lit "unauthorized"), s)
      else if s.poisoned.rules
      then (error (lit "lock_poisoned"), s)
      else add_with request id executable port (rule_verdict verdict) s

  -- `mutate`, of `Mutate::Delete`
  unfoldable pub rule_delete : Request → ℕ → Server toml → Response × Server toml
  unfolding save_rules
  rule_delete request id s =
      if not (peer_may_mutate request.host request.peer)
      then (error (lit "unauthorized"), s)
      else if s.poisoned.rules
      then (error (lit "lock_poisoned"), s)
      else delete_with request (remove id s.rules) s
