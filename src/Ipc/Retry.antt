-- ===== src/Ipc/Retry.antt =====
-- An answer that is sent again.
use inter_fire.Prelude.{
  eq_nat, arith, ℕ, ◌≡◌, refl, ◌∙◌, ap, sym, Bool, true, false, not, ◌&&◌, some, Text,
  if◌then◌else◌, get,
}
use inter_fire.Rules.{Verdict, Inserted, insert}
use inter_fire.Rules.Store.{Toml}
use inter_fire.Prompts.{
  Prompt, RuleScope, Answered, AnswerResult, AnswerError, pending, is_due, expire,
}
use inter_fire.Prompts.Answers.{answer_twice}
use inter_fire.Ipc.{
  Response, pong, Request, Server, peer_may_mutate, answer_verdict, answer_scope, answered_rule,
}
use inter_fire.Ipc.Mutations.{
  save_rules, insert_answered, persist_answered_rule, is_kept, after_answer, answer_with,
  prompt_answer,
}
use inter_fire.Ipc.Serve.{replied, serve, answer}
use inter_fire.Ipc.Invariant.{IsValid}

if_false {ℓ} : {A : Type ℓ} → (b : Bool) (x y : A) → b ≡ false → (if b then x else y) ≡ y
if_false true x y h = absurd (ground (arith, h))
if_false false x y h = refl

module _ (toml : Toml) where
  -- What the end of an answer leaves alone
  IsFramed : Server toml → Response × Server toml → Type 0
  IsFramed s (response, s') = (s'.prompts ≡ s.prompts) × (s'.poisoned ≡ s.poisoned)

  choose-IsFramed :
      (b : Bool) (s : Server toml) (x y : Response × Server toml)
      → IsFramed s x
      → IsFramed s y
      → IsFramed s (if b then x else y)
  choose-IsFramed true s x y v w = v
  choose-IsFramed false s x y v w = w

  insert_answered-IsFramed :
      (o : Inserted) (scope : RuleScope) (request : Request) (s : Server toml)
      → IsFramed s (insert_answered toml o scope request s)
  unfolding IsFramed save_rules
  insert_answered-IsFramed (Inserted.err e) scope request s = (refl, refl)
  insert_answered-IsFramed (Inserted.ok rules) RuleScope.once request s = (refl, refl)
  insert_answered-IsFramed (Inserted.ok rules) RuleScope.session request s = (refl, refl)
  insert_answered-IsFramed (Inserted.ok rules) RuleScope.permanent request s = (refl, refl)

  after_answer-IsFramed :
      (request : Request) (result : AnswerResult) (s : Server toml)
      → IsFramed s (after_answer toml request result s)
  unfolding IsFramed after_answer persist_answered_rule
  after_answer-IsFramed request (AnswerResult.err AnswerError.not_found) s = (refl, refl)
  after_answer-IsFramed request (AnswerResult.err AnswerError.expired) s = (refl, refl)
  after_answer-IsFramed request (AnswerResult.ok answered) s =
      choose-IsFramed (not answered.duplicate && is_kept answered.scope) s _ _
        (choose-IsFramed s.poisoned.rules s _ _ (refl, refl)
          (insert_answered-IsFramed (insert (answered_rule s.rules answered) s.rules) answered.scope
            request s))
        (refl, refl)

  -- What a permitted answer comes to
  serve-answer :
      (request : Request) (id : ℕ) (verdict scope : Text) (v : Verdict) (r : RuleScope)
      (s : Server toml)
      → peer_may_mutate request.host request.peer ≡ true
      → s.poisoned.prompts ≡ false
      → answer_verdict verdict ≡ some v
      → answer_scope scope ≡ some r
      → let (result, prompts) =
          inter_fire.Prompts.answer request.now request.later id v r s.prompts in
        serve toml request (answer id verdict scope) s
        ≡ replied toml (after_answer toml request result (record s { prompts = prompts }))
  unfolding serve prompt_answer
  serve-answer request id verdict scope v r s may sound reads_verdict reads_scope =
      ap (replied toml) (
        if_false (not (peer_may_mutate request.host request.peer)) _ _ (ap not may)
        ∙ ap (λ x. answer_with toml request id x (answer_scope scope) s) reads_verdict
        ∙ ap (λ x. answer_with toml request id (some v) x s) reads_scope
        ∙ if_false s.poisoned.prompts _ _ sound)

  -- The first answer of a prompt is the only one that acts: in a valid state with an unpoisoned queue, if a permitted peer answers a pending prompt in time, and the next request is an answer of that prompt by a permitted peer, both with a verdict and a scope that the daemon knows, then the second answer is a pong that changes neither the rules nor their file, nor anything but expired prompts, even where the first answer was not a pong because its rule could not be saved.
  pub serve-answer_twice :
      (request request' : Request) (id : ℕ) (verdict scope verdict' scope' : Text) (v v' : Verdict)
      (r r' : RuleScope) (p : Prompt) (s : Server toml)
      → IsValid toml s
      → peer_may_mutate request.host request.peer ≡ true
      → peer_may_mutate request'.host request'.peer ≡ true
      → s.poisoned.prompts ≡ false
      → answer_verdict verdict ≡ some v
      → answer_scope scope ≡ some r
      → answer_verdict verdict' ≡ some v'
      → answer_scope scope' ≡ some r'
      → get id s.prompts.prompts ≡ some p
      → p.state ≡ pending
      → is_due request.now p ≡ false
      → let s' = (serve toml request (answer id verdict scope) s).1 in
        serve toml request' (answer id verdict' scope') s'
        ≡ (some pong, record s' { prompts = expire request'.now s'.prompts })
  unfolding after_answer IsFramed
  serve-answer_twice request request' id verdict scope verdict' scope' v v' r r' p s valid may may'
        sound reads_v reads_r reads_v' reads_r' found waits early =
      let (result, prompts) =
        inter_fire.Prompts.answer request.now request.later id v r s.prompts in
      let first = serve-answer request id verdict scope v r s may sound reads_v reads_r in
      let s' = (serve toml request (answer id verdict scope) s).1 in
      let framed = after_answer-IsFramed request result (record s { prompts = prompts }) in
      let left : s'.prompts ≡ prompts = ap (λ x. x.1.prompts) first ∙ framed.0 in
      let locks : s'.poisoned ≡ s.poisoned = ap (λ x. x.1.poisoned) first ∙ framed.1 in
      let second =
        serve-answer request' id verdict' scope' v' r' s' may' (ap (λ x. x.prompts) locks ∙ sound)
          reads_v' reads_r' in
      let again =
        (answer_twice request.now request.later request'.now request'.later id v v' r r' p s.prompts
          valid.prompts found waits early).1 in
      let told : AnswerResult =
        AnswerResult.ok
          (record { id = id; key = p.key; verdict = v; scope = r; duplicate = true }) in
      let same : inter_fire.Prompts.answer request'.now request'.later id v' r' s'.prompts
          ≡ (told, expire request'.now s'.prompts) =
        ap (λ q. inter_fire.Prompts.answer request'.now request'.later id v' r' q) left
        ∙ again
        ∙ ap (λ q. (told, expire request'.now q)) (sym left) in
      second
      ∙ ap (λ x. replied toml (after_answer toml request' x.0 (record s' { prompts = x.1 }))) same
