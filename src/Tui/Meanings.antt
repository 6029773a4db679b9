-- ===== src/Tui/Meanings.antt =====
-- crates/interfire-tui/src/app.rs: what the words of the client's choices mean to the daemon.
use inter_fire.Prelude.{◌≡◌, refl, true, some, text_eq}
use inter_fire.Rules.{Verdict}
use inter_fire.Prompts.{RuleScope}
use inter_fire.Ipc
use inter_fire.Proto
use inter_fire.Tui.{
  AnswerVerdict, AnswerScope, verdict_str, scope_str, TrafficDirectionChoice, direction_str,
}

-- What the choices of the answer mean to the daemon
abbrev pub verdict_meant : AnswerVerdict → Verdict
verdict_meant AnswerVerdict.allow = Verdict.allow
verdict_meant AnswerVerdict.deny = Verdict.deny

abbrev pub scope_meant : AnswerScope → RuleScope
scope_meant AnswerScope.once = RuleScope.once
scope_meant AnswerScope.session = RuleScope.session
scope_meant AnswerScope.permanent = RuleScope.permanent

-- The words of the choices are read by the daemon as what they mean.
pub answer_verdict-verdict_str :
    (v : AnswerVerdict) → Ipc.answer_verdict (verdict_str v) ≡ some (verdict_meant v)
unfolding text_eq
answer_verdict-verdict_str AnswerVerdict.allow = refl
answer_verdict-verdict_str AnswerVerdict.deny = refl

pub answer_scope-scope_str :
    (s : AnswerScope) → Ipc.answer_scope (scope_str s) ≡ some (scope_meant s)
unfolding text_eq
answer_scope-scope_str AnswerScope.once = refl
answer_scope-scope_str AnswerScope.session = refl
answer_scope-scope_str AnswerScope.permanent = refl

pub is_direction-direction_str :
    (d : TrafficDirectionChoice) → Proto.is_direction (direction_str d) ≡ true
unfolding text_eq
is_direction-direction_str TrafficDirectionChoice.out = refl
is_direction-direction_str TrafficDirectionChoice.in_ = refl
is_direction-direction_str TrafficDirectionChoice.all = refl
