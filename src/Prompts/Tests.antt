-- ===== src/Prompts/Tests.antt =====
-- Runs of the prompt queue: one question, its answers, and the tokens they leave.
use inter_fire.Prelude.{◌≡◌, refl, true, false, none, some, arith, lit, get, insert, eq_nat}
use inter_fire.Rules.{allow, deny}
use inter_fire.Prompts.{
  PromptKey, Prompt, PromptQueue, pending, new, expire, expire_each, due_prompts, enqueue,
  enqueue_at, push_prompt, deduped, answer, once, session, ok, err, AnswerError,
}
use inter_fire.Prompts.Invariant.{IsValid}
use inter_fire.Prompts.Enqueue.{enqueue-IsValid, enqueue_twice}
use inter_fire.Prompts.Answers.{answer_twice, answer_late}

abbrev curl_web : PromptKey
curl_web = record { executable = lit "/usr/bin/curl"; ipv4 = 3405803777; port = 443 }

abbrev empty : PromptQueue
empty = new 2 60

empty-IsValid : IsValid empty
unfolding new get
empty-IsValid = record {
  positive = omega arith;
  unique = tt;
  keyed = tt;
  below = λ id h. cc;
  asked = λ key id h. cc;
  waiting = λ id p h w. cc;
  bounded = omega arith;
  settled = λ id p h a. cc;
}

enqueue-IsValid_example : IsValid (enqueue 5 5 curl_web empty).1
enqueue-IsValid_example =
    enqueue-IsValid 5 5 curl_web empty empty-IsValid (unfold new in omega arith)

abbrev pub asked : PromptQueue
asked = (enqueue 5 5 curl_web empty).1

pub asked-IsValid : IsValid asked
asked-IsValid = enqueue-IsValid 5 5 curl_web empty empty-IsValid (unfold new in omega arith)

enqueue_twice_example : (enqueue 65 65 curl_web asked).0 ≡ deduped 1
enqueue_twice_example =
    enqueue_twice 5 5 65 65 1 curl_web empty empty-IsValid (unfold new in omega arith)
      (unfold enqueue enqueue_at expire expire_each due_prompts new get in refl)
      (unfold new in omega arith)

abbrev pub question : Prompt
question = record {
  id = 1;
  key = curl_web;
  state = pending;
  created_at = 5;
  expires_at = 65;
  answer_verdict = none;
  answer_scope = none;
}

pub asked_there : get 1 asked.prompts ≡ some question
unfolding enqueue enqueue_at expire expire_each due_prompts push_prompt new get insert
asked_there = refl

answer_twice_example :
    ((answer 9 9 1 allow once asked).0
      ≡ ok (record { id = 1; key = curl_web; verdict = allow; scope = once; duplicate = false }))
    × (answer 500 500 1 deny session (answer 9 9 1 allow once asked).1 ≡ (
      ok (record { id = 1; key = curl_web; verdict = allow; scope = once; duplicate = true }),
      expire 500 (answer 9 9 1 allow once asked).1,
    ))
answer_twice_example =
    answer_twice 9 9 500 500 1 allow deny once session question asked asked-IsValid asked_there refl
      refl

answer_late_example :
    (answer 66 66 1 allow once asked ≡ (err AnswerError.expired, expire 66 asked))
    × (answer 67 67 1 deny session (expire 66 asked)
        ≡ (err AnswerError.expired, expire 67 (expire 66 asked)))
answer_late_example =
    answer_late 66 66 67 67 1 allow deny once session question asked asked-IsValid asked_there refl
