-- ===== src/Prompts/Answers.antt =====
-- Answering: the first answer to a pending prompt stands, a second is told the first, and a prompt
-- that is expired or unknown takes none.
use inter_fire.Prelude.{
  ℕ, ◌≡◌, refl, ◌∙◌, ap, true, false, some, arith, eq_nat, nat_eq_iff, get, get-insert,
}
use inter_fire.Rules.{Verdict}
use inter_fire.Prompts.{
  Prompt, eq_prompt_key, PromptQueue, PromptState, RuleScope, is_due, expire, pending, answered,
  answer, answer_at, answer_prompt, leave_token, ok, err, AnswerError, or_given,
}
use inter_fire.Prompts.Invariant.{IsValid}
use inter_fire.Prompts.Expiry.{expire-IsValid, expire-kept, get-expire}
use inter_fire.Prompts.Settled.{settle, settled_queue, prompts-leave_token, answer-IsValid}

module _ (now now' id : ℕ) (verdict : Verdict) (scope : RuleScope) (p : Prompt) (q : PromptQueue)
    (v : IsValid q) where
  answer-found :
      get id (expire now q).prompts ≡ some p
      → answer now now' id verdict scope q
        ≡ answer_prompt now' id verdict scope p p.state (expire now q)
  unfolding answer answer_at
  answer-found h = ap (λ o. answer_at now' id verdict scope o (expire now q)) h

  answer-pending :
      get id q.prompts ≡ some p
      → p.state ≡ pending
      → is_due now p ≡ false
      → answer now now' id verdict scope q ≡ (
        ok (record { id = id; key = p.key; verdict = verdict; scope = scope; duplicate = false }),
        leave_token now' p.key verdict scope (settled_queue id verdict scope p (expire now q)),
      )
  unfolding answer_prompt
  answer-pending found waits early =
      answer-found (expire-kept now id p q v found early)
      ∙ ap (λ s. answer_prompt now' id verdict scope p s (expire now q)) waits

  answer-answered :
      get id q.prompts ≡ some p
      → p.state ≡ answered
      → answer now now' id verdict scope q ≡ (
        ok (record {
          id = id;
          key = p.key;
          verdict = or_given p.answer_verdict verdict;
          scope = or_given p.answer_scope scope;
          duplicate = true;
        }),
        expire now q,
      )
  unfolding answer_prompt
  answer-answered found done =
      answer-found (expire-kept now id p q v found (ground (arith)))
      ∙ ap (λ s. answer_prompt now' id verdict scope p s (expire now q)) done

-- The first answer stands: a prompt that is pending and in time takes the operator's verdict and scope, and whatever a later answer says at any later time, it is told the first verdict and scope, marked as a duplicate, and leaves no further token.
pub answer_twice :
    (now now' t t' id : ℕ) (verdict verdict' : Verdict) (scope scope' : RuleScope) (p : Prompt)
    (q : PromptQueue)
    → IsValid q
    → get id q.prompts ≡ some p
    → p.state ≡ pending
    → is_due now p ≡ false
    → let (result, q') = answer now now' id verdict scope q in
      (result
        ≡ ok (record { id = id; key = p.key; verdict = verdict; scope = scope; duplicate = false }))
      × (answer t t' id verdict' scope' q' ≡ (
        ok (record { id = id; key = p.key; verdict = verdict; scope = scope; duplicate = true }),
        expire t q',
      ))
answer_twice now now' t t' id verdict verdict' scope scope' p q v found waits early =
    let first = answer-pending now now' id verdict scope p q v found waits early in
    let q' = (answer now now' id verdict scope q).1 in
    let there : get id q'.prompts ≡ some (settle verdict scope p) =
      ap (λ x. get id x.1.prompts) first
      ∙ ap (get id) (
          prompts-leave_token now' p.key verdict scope
            (settled_queue id verdict scope p (expire now q)))
      ∙ get-insert id id (settle verdict scope p) (expire now q).prompts
      ∙ ground (arith, nat_eq_iff id id) in
    (
      ap (λ x. x.0) first,
      answer-answered t t' id verdict' scope' (settle verdict scope p) q'
          (answer-IsValid now now' id verdict scope q v) there refl,
    )

-- A late answer is refused: a pending prompt whose time to live has passed takes no answer, and neither does any later attempt, so that no token and no rule comes of it.
pub answer_late :
    (now now' t t' id : ℕ) (verdict verdict' : Verdict) (scope scope' : RuleScope) (p : Prompt)
    (q : PromptQueue)
    → IsValid q
    → get id q.prompts ≡ some p
    → is_due now p ≡ true
    → (answer now now' id verdict scope q ≡ (err AnswerError.expired, expire now q))
      × (answer t t' id verdict' scope' (expire now q)
          ≡ (err AnswerError.expired, expire t (expire now q)))
unfolding answer_prompt
answer_late now now' t t' id verdict verdict' scope scope' p q v found due =
    let gone : get id (expire now q).prompts ≡ some (record p { state = PromptState.expired }) =
      get-expire now id q v ∙ rw (found, due) refl in
    let v' = expire-IsValid now q v in
    (
      answer-found now now' id verdict scope (record p { state = PromptState.expired }) q v gone,
      answer-found t t' id verdict' scope' (record p { state = PromptState.expired }) (expire now q)
          v'
          (expire-kept t id (record p { state = PromptState.expired }) (expire now q) v' gone refl),
    )
