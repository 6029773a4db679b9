-- ===== src/Ipc/Invariant.antt =====
-- What every request keeps.
use inter_fire.Prelude.{
  ℕ, ◌≡◌, refl, Bool, true, false, not, ◌&&◌, Option, none, some, Text, if◌then◌else◌,
}
use inter_fire.Rules.{Rule, RuleSet, Inserted, insert, remove, Scope}
use inter_fire.Rules.Edits.{insert-IsValid, remove-IsValid}
use inter_fire.Rules.Store.{Toml}
use inter_fire.Prompts.{RuleScope, AnswerResult, AnswerError, Answered}
use inter_fire.Prompts.Settled.{answer-IsValid}
use inter_fire.Dns.Laws.{observe-IsValid}
use inter_fire.Control.Persistence.{IsPersisted}
use inter_fire.Ipc.{Request, Server, tcp_rule, answered_rule}
use inter_fire.Ipc.Mutations.{
  save_rules, save_if_permanent, insert_answered, persist_answered_rule, is_kept, after_answer,
  answer_with, add_inserted, add_with, delete_with,
}

module _ (toml : Toml) where
  pub record IsValid (s : Server toml) : Type 0 where
    pub rules : inter_fire.Rules.Edits.IsValid s.rules
    pub prompts : inter_fire.Prompts.Invariant.IsValid s.prompts
    pub dns : inter_fire.Dns.Laws.IsValid s.dns
    pub modes : IsPersisted s.modes

  pub choose-IsValid :
      {A : Type 0} (b : Bool) (x y : A × Server toml)
      → IsValid x.1
      → IsValid y.1
      → IsValid (if b then x else y).1
  choose-IsValid true x y v w = v
  choose-IsValid false x y v w = w

  with_rules :
      (rules : RuleSet) (s : Server toml)
      → IsValid s
      → inter_fire.Rules.Edits.IsValid rules
      → IsValid (record s { rules = rules })
  with_rules rules s v w = record { rules = w; prompts = v.prompts; dns = v.dns; modes = v.modes }

  save_rules-IsValid :
      (request : Request) (s : Server toml) → IsValid s → IsValid (save_rules toml request s).1
  unfolding save_rules
  save_rules-IsValid request s v = record {
    rules = v.rules;
    prompts = v.prompts;
    dns = v.dns;
    modes = v.modes;
  }

  save_if_permanent-IsValid :
      (scope : RuleScope) (request : Request) (s : Server toml)
      → IsValid s
      → IsValid (save_if_permanent toml scope request s).1
  save_if_permanent-IsValid RuleScope.permanent request s v = save_rules-IsValid request s v
  save_if_permanent-IsValid RuleScope.once request s v = v
  save_if_permanent-IsValid RuleScope.session request s v = v

  insert_answered-IsValid :
      (rule : Rule) (o : Inserted) (scope : RuleScope) (request : Request) (s : Server toml)
      → insert rule s.rules ≡ o
      → IsValid s
      → IsValid (insert_answered toml o scope request s).1
  insert_answered-IsValid rule (Inserted.err e) scope request s h v = v
  insert_answered-IsValid rule (Inserted.ok rules) scope request s h v =
      save_if_permanent-IsValid scope request (record s { rules = rules })
        (with_rules rules s v (insert-IsValid rule s.rules rules v.rules h).0)

  persist_answered_rule-IsValid :
      (request : Request) (answered : Answered) (s : Server toml)
      → IsValid s
      → IsValid (persist_answered_rule toml request answered s).1
  unfolding persist_answered_rule
  persist_answered_rule-IsValid request answered s v = choose-IsValid s.poisoned.rules _ _ v (
      insert_answered-IsValid (answered_rule s.rules answered)
        (insert (answered_rule s.rules answered) s.rules) answered.scope request s refl v)

  after_answer-IsValid :
      (request : Request) (result : AnswerResult) (s : Server toml)
      → IsValid s
      → IsValid (after_answer toml request result s).1
  unfolding after_answer
  after_answer-IsValid request (AnswerResult.err AnswerError.not_found) s v = v
  after_answer-IsValid request (AnswerResult.err AnswerError.expired) s v = v
  after_answer-IsValid request (AnswerResult.ok answered) s v =
      choose-IsValid (not answered.duplicate && is_kept answered.scope) _ _
        (persist_answered_rule-IsValid request answered s v) v

  pub answer_with-IsValid :
      (request : Request) (id : ℕ) (verdict : Option inter_fire.Rules.Verdict)
      (scope : Option RuleScope) (s : Server toml)
      → IsValid s
      → IsValid (answer_with toml request id verdict scope s).1
  answer_with-IsValid request id none scope s v = v
  answer_with-IsValid request id (some verdict) none s v = v
  answer_with-IsValid request id (some verdict) (some scope) s v =
      let (result, prompts) =
        inter_fire.Prompts.answer request.now request.later id verdict scope s.prompts in
      choose-IsValid s.poisoned.prompts _ _ v (
        after_answer-IsValid request result (record s { prompts = prompts })
          (record {
            rules = v.rules;
            prompts = answer-IsValid request.now request.later id verdict scope s.prompts v.prompts;
            dns = v.dns;
            modes = v.modes;
          }))

  add_inserted-IsValid :
      (rule : Rule) (o : Inserted) (request : Request) (s : Server toml)
      → insert rule s.rules ≡ o
      → IsValid s
      → IsValid (add_inserted toml o request s).1
  add_inserted-IsValid rule (Inserted.err e) request s h v = v
  add_inserted-IsValid rule (Inserted.ok rules) request s h v =
      save_rules-IsValid request (record s { rules = rules })
        (with_rules rules s v (insert-IsValid rule s.rules rules v.rules h).0)

  pub add_with-IsValid :
      (request : Request) (id : ℕ) (executable : Text) (port : ℕ)
      (verdict : Option inter_fire.Rules.Verdict) (s : Server toml)
      → IsValid s
      → IsValid (add_with toml request id executable port verdict s).1
  add_with-IsValid request id executable port none s v = v
  add_with-IsValid request id executable port (some verdict) s v =
      let rule = tcp_rule id executable port verdict Scope.permanent in
      add_inserted-IsValid rule (insert rule s.rules) request s refl v

  pub delete_with-IsValid :
      (request : Request) (removed : Bool) (rules : RuleSet) (s : Server toml)
      → IsValid s
      → inter_fire.Rules.Edits.IsValid rules
      → IsValid (delete_with toml request (rules, removed) s).1
  delete_with-IsValid request true rules s v w =
      save_rules-IsValid request (record s { rules = rules }) (with_rules rules s v w)
  delete_with-IsValid request false rules s v w = with_rules rules s v w
