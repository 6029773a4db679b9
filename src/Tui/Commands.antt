-- ===== src/Tui/Commands.antt =====
-- Which commands the keys of the client lead to.
use inter_fire.Prelude.{
  ℕ, ◌-◌, ◌^◌, ◌≡◌, ◌≤◌, refl, subst, Bool, true, false, not, ◌||◌, ◌&&◌, Option, none, some, Text,
  lit, lower, nat_eq, if◌then◌else◌, get_elem?, parse_uint-le,
}
use inter_fire.Ipc
use inter_fire.Proto
use inter_fire.Proto.{parse_u64, parse_u16}
use inter_fire.Proto.Rows.{PromptRow, RuleRow, can_answer}
use inter_fire.Tui.{
  Tab, has_split, KeyCode, esc, enter, backspace, up, down, other, char, IpcCommand, Submitted,
  AddRuleForm, rule_command, with_id, with_port, is_absolute, is_verdict, AnswerVerdict,
  AnswerScope, verdict_str, scope_str, AnswerPromptForm, answer_command, TrafficScopeChoice,
  TrafficDirectionChoice, TrafficActionChoice, direction_str, user, machine, block, unblock,
  submit_traffic, TrafficForm, traffic_command, Overlay, closed, notice, adding, answering, traffic,
  KeyAction, command,
}
use inter_fire.Tui.Meanings.{
  verdict_meant, scope_meant, answer_verdict-verdict_str, answer_scope-scope_str,
  is_direction-direction_str,
}
use inter_fire.Tui.App.{App}
use inter_fire.Tui.Keys.{
  is_list, is_char, is_control, submit_form, submit_rule, handle_traffic_overlay_key,
  handle_add_overlay_key, handle_answer_overlay_key, open_answer, open_answer_overlay, delete_row,
  delete_selected_rule, handle_tab_key, handle_root_char, handle_root_key, handle_overlay_key,
  handle_key, dismisses,
}

-- What a command may ask for: a rule that the daemon can take, an answer that it knows, and traffic of
-- the user alone
abbrev pub IsSafe : IpcCommand → Type 0
IsSafe (IpcCommand.add_rule id executable verdict port) =
    (id ≤ 2 ^ 64 - 1)
    × (is_absolute executable ≡ true)
    × (is_verdict verdict ≡ true)
    × (port ≤ 2 ^ 16 - 1)
IsSafe (IpcCommand.answer_prompt id verdict scope) =
    ((v : AnswerVerdict) × (verdict ≡ verdict_str v)
      × (Ipc.answer_verdict verdict ≡ some (verdict_meant v)))
    × ((s : AnswerScope) × (scope ≡ scope_str s) × (Ipc.answer_scope scope ≡ some (scope_meant s)))
IsSafe (IpcCommand.traffic_block scope direction) =
    (scope ≡ lit "user")
    × ((d : TrafficDirectionChoice) × (direction ≡ direction_str d)
        × (Proto.is_direction direction ≡ true))
IsSafe (IpcCommand.traffic_unblock scope) = scope ≡ lit "user"
IsSafe _ = Unit

abbrev AllowsAction : KeyAction → Type 0
AllowsAction (command c) = IsSafe c
AllowsAction _ = Unit

abbrev AllowsSubmitted : Submitted → Type 0
AllowsSubmitted (Submitted.ok c) = IsSafe c
AllowsSubmitted (Submitted.err message) = Unit

choose :
    (b : Bool) (x y : KeyAction × App)
    → AllowsAction x.0
    → AllowsAction y.0
    → AllowsAction (if b then x else y).0
choose true x y v w = v
choose false x y v w = w

with_port-Allows :
    (n : ℕ) (path word : Text) (port : Option ℕ)
    → n ≤ 2 ^ 64 - 1
    → is_absolute path ≡ true
    → is_verdict word ≡ true
    → ((p : ℕ) → port ≡ some p → p ≤ 2 ^ 16 - 1)
    → AllowsSubmitted (with_port n path word port)
with_port-Allows n path word none h a w f = tt
with_port-Allows n path word (some p) h a w f = (h, a, w, f p refl)

-- A test that refuses hands on its outcome.
refuses :
    (b : Bool) (message : Text) (s : Submitted)
    → (b ≡ true → AllowsSubmitted s)
    → AllowsSubmitted (if not b then Submitted.err message else s)
refuses true message s f = f refl
refuses false message s f = tt

with_id-Allows :
    (form : AddRuleForm) (id : Option ℕ)
    → ((n : ℕ) → id ≡ some n → n ≤ 2 ^ 64 - 1)
    → AllowsSubmitted (with_id form id)
with_id-Allows form none f = tt
with_id-Allows form (some n) f = refuses (is_absolute form.executable) _ _ (λ a.
    refuses (is_verdict (lower form.verdict)) _ _ (λ w.
      with_port-Allows n form.executable (lower form.verdict) (parse_u16 form.port) (f n refl) a w
        (λ p e. parse_uint-le (2 ^ 16 - 1) p form.port e)))

rule_command-Allows : (form : AddRuleForm) → AllowsSubmitted (rule_command form)
unfolding rule_command
rule_command-Allows form =
    with_id-Allows form (parse_u64 form.id) (λ n e. parse_uint-le (2 ^ 64 - 1) n form.id e)

submit_traffic-Allows :
    (scope : TrafficScopeChoice) (action : TrafficActionChoice) (direction : TrafficDirectionChoice)
    → AllowsSubmitted (submit_traffic scope action direction)
submit_traffic-Allows machine action direction = tt
submit_traffic-Allows user block direction =
    (refl, (direction, refl, is_direction-direction_str direction))
submit_traffic-Allows user unblock direction = refl

submit_form-Allows :
    (s : Submitted) (app : App) → AllowsSubmitted s → AllowsAction (submit_form s app).0
submit_form-Allows (Submitted.ok c) app v = v
submit_form-Allows (Submitted.err message) app v = tt

submit_rule-Allows :
    (s : Submitted) (app : App) → AllowsSubmitted s → AllowsAction (submit_rule s app).0
submit_rule-Allows (Submitted.ok c) app v = v
submit_rule-Allows (Submitted.err message) app v = tt

traffic_key-Allows :
    (code : KeyCode) (form : TrafficForm) (app : App)
    → AllowsAction (handle_traffic_overlay_key code form app).0
unfolding handle_traffic_overlay_key traffic_command
traffic_key-Allows enter form app =
    submit_form-Allows (submit_traffic form.scope form.action form.direction) app
      (submit_traffic-Allows form.scope form.action form.direction)
traffic_key-Allows (char c) form app = choose (is_char b'd' b'D' (char c)) _ _ tt (
    choose (is_char b'b' b'B' (char c)) _ _ tt
      (choose (is_char b'u' b'U' (char c)) _ _ tt (choose (is_char b'a' b'A' (char c)) _ _ tt tt)))
traffic_key-Allows _ form app = tt

add_key-Allows :
    (code : KeyCode) (form : AddRuleForm) (app : App)
    → AllowsAction (handle_add_overlay_key code form app).0
unfolding handle_add_overlay_key
add_key-Allows enter form app =
    submit_rule-Allows (rule_command form) app (rule_command-Allows form)
add_key-Allows (char c) form app = choose (not (is_control c)) _ _ tt tt
add_key-Allows _ form app = tt

answer_key-Allows :
    (code : KeyCode) (form : AnswerPromptForm) (app : App)
    → AllowsAction (handle_answer_overlay_key code form app).0
unfolding handle_answer_overlay_key answer_command
answer_key-Allows enter form app = choose (not (can_answer form.prompt)) _ _ tt (
  (form.verdict, refl, answer_verdict-verdict_str form.verdict),
  (form.scope, refl, answer_scope-scope_str form.scope),
)
answer_key-Allows (char c) form app =
    choose (is_char b'a' b'A' (char c)) _ _ tt (choose (is_char b'd' b'D' (char c)) _ _ tt tt)
answer_key-Allows _ form app = tt

open_answer-Allows : (row : Option PromptRow) (app : App) → AllowsAction (open_answer row app).0
open_answer-Allows none app = tt
open_answer-Allows (some row) app = choose (can_answer row) _ _ tt tt

delete_row-Allows : (row : Option RuleRow) → AllowsAction (delete_row row)
delete_row-Allows none = tt
delete_row-Allows (some row) = tt

tab_char-Allows : (t : Tab) (c : ℕ) (app : App) → AllowsAction (handle_tab_key t (char c) app).0
unfolding handle_tab_key open_answer_overlay delete_selected_rule
tab_char-Allows Tab.rules c app = choose (nat_eq c b'a') _ _ tt (
    choose (nat_eq c b'd') _ _ (delete_row-Allows (get_elem? app.rules app.list_selected))
      (choose (nat_eq c b'r') _ _ tt tt))
tab_char-Allows Tab.prompts c app =
    choose (nat_eq c b'a') _ _ (open_answer-Allows (get_elem? app.prompts app.list_selected) app)
      (choose (nat_eq c b'r') _ _ tt tt)
tab_char-Allows Tab.status c app = choose (nat_eq c b't') _ _ tt (
    choose (nat_eq c b'b') _ _
      (
        refl,
        (TrafficDirectionChoice.out, refl, is_direction-direction_str TrafficDirectionChoice.out),
      )
      (choose (nat_eq c b'B') _ _
        (
          refl,
          (TrafficDirectionChoice.all, refl, is_direction-direction_str TrafficDirectionChoice.all),
        )
        (choose (nat_eq c b'u') _ _ refl tt)))
tab_char-Allows Tab.events c app = choose (nat_eq c b'f' || nat_eq c b'c') _ _ tt tt
tab_char-Allows Tab.apps c app = tt
tab_char-Allows Tab.help c app = tt

tab_key-Allows : (t : Tab) (code : KeyCode) (app : App) → AllowsAction (handle_tab_key t code app).0
unfolding handle_tab_key open_answer_overlay
tab_key-Allows t (char c) app = tab_char-Allows t c app
tab_key-Allows Tab.prompts enter app =
    open_answer-Allows (get_elem? app.prompts app.list_selected) app
tab_key-Allows Tab.rules _ app = tt
tab_key-Allows Tab.prompts _ app = tt
tab_key-Allows Tab.status _ app = tt
tab_key-Allows Tab.events _ app = tt
tab_key-Allows Tab.apps _ app = tt
tab_key-Allows Tab.help _ app = tt

root_char-Allows : (c : ℕ) (app : App) → AllowsAction (handle_root_char c app).0
unfolding handle_root_char
root_char-Allows c app = choose (nat_eq c b'q' || nat_eq c b'Q') _ _ tt (
    choose (nat_eq c b'?') _ _ tt (
      choose (nat_eq c b'1') _ _ tt (
        choose (nat_eq c b'2') _ _ tt (
          choose (nat_eq c b'3') _ _ tt (
            choose (nat_eq c b'4') _ _ tt (
              choose (nat_eq c b'5') _ _ tt (
                choose (nat_eq c b'6') _ _ tt (
                  choose (nat_eq c b'h' && has_split app.tab) _ _ tt (
                    choose (nat_eq c b'l' && has_split app.tab) _ _ tt (
                      choose (nat_eq c b'j' && is_list app.pane) _ _ tt (
                        choose (nat_eq c b'k' && is_list app.pane) _ _ tt
                          (tab_char-Allows app.tab c app))))))))))))

root_key-Allows : (code : KeyCode) (app : App) → AllowsAction (handle_root_key code app).0
unfolding handle_root_key
root_key-Allows down app = choose (is_list app.pane) _ _ tt (tab_key-Allows app.tab down app)
root_key-Allows up app = choose (is_list app.pane) _ _ tt (tab_key-Allows app.tab up app)
root_key-Allows (char c) app = root_char-Allows c app
root_key-Allows esc app = tab_key-Allows app.tab esc app
root_key-Allows enter app = tab_key-Allows app.tab enter app
root_key-Allows backspace app = tab_key-Allows app.tab backspace app
root_key-Allows other app = tab_key-Allows app.tab other app
root_key-Allows _ app = tt

overlay_key-Allows :
    (overlay : Overlay) (code : KeyCode) (app : App)
    → AllowsAction (handle_overlay_key overlay code app).0
unfolding handle_overlay_key
overlay_key-Allows closed code app = root_key-Allows code app
overlay_key-Allows (notice message) code app = choose (dismisses code) _ _ tt tt
overlay_key-Allows (adding form) code app = add_key-Allows code form app
overlay_key-Allows (answering form) code app = answer_key-Allows code form app
overlay_key-Allows (traffic form) code app = traffic_key-Allows code form app

-- No key makes the client ask for more than it may: in any state, a command for traffic is about the user and never the machine, an answer has a verdict and a scope that the daemon knows, and a new rule has an absolute path, a known verdict, an id of 64 bits and a port of 16.
pub handle_key-IsSafe :
    (code : KeyCode) (app : App) (c : IpcCommand) → (handle_key code app).0 ≡ command c → IsSafe c
unfolding handle_key
handle_key-IsSafe code app c e = subst AllowsAction e (overlay_key-Allows app.overlay code app)
