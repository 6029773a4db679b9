-- ===== src/Tui/Reachable.antt =====
-- Every key, and what the client can come to.
use inter_fire.Prelude.{
  ℕ, ◌≡◌, refl, Bool, true, false, not, ◌||◌, ◌&&◌, Option, none, some, Text, arith, nat_eq,
  if◌then◌else◌, get_elem?,
}
use inter_fire.Proto.Rows.{PromptRow, can_answer}
use inter_fire.Tui.{
  Tab, next_tab, prev_tab, has_split, Pane, KeyCode, esc, enter, tab, back_tab, backspace, left,
  right, up, down, other, char, rule_command, AnswerPromptForm, AddRuleForm, TrafficForm,
  traffic_command, new_answer_form, Overlay, closed, notice, adding, answering, traffic, nothing,
}
use inter_fire.Tui.App.{App, new, apply, IpcEvent, EventsVerdictFilter, all}
use inter_fire.Tui.Keys.{
  is_list, is_char, with_overlay, next_filter, handle_traffic_overlay_key, handle_add_overlay_key,
  handle_answer_overlay_key, open_answer, open_answer_overlay, handle_events_filter_key,
  handle_tab_key, handle_root_char, handle_root_key, handle_overlay_key, handle_key, move_list,
  dismisses, set_filter, is_control,
}
use inter_fire.Tui.Selection.{
  IsFresh, IsValid, overlay-IsValid, choose-IsValid, submit_form-IsValid, submit_rule-IsValid,
  set_tab-IsValid, move_list-IsValid, apply-IsValid,
}

traffic_key-IsValid :
    (code : KeyCode) (form : TrafficForm) (app : App)
    → IsValid app
    → IsValid (handle_traffic_overlay_key code form app).1
unfolding handle_traffic_overlay_key
traffic_key-IsValid esc form app v = overlay-IsValid closed app v tt
traffic_key-IsValid enter form app v = submit_form-IsValid (traffic_command form) app v
traffic_key-IsValid tab form app v = overlay-IsValid (traffic _) app v tt
traffic_key-IsValid left form app v = overlay-IsValid (traffic _) app v tt
traffic_key-IsValid right form app v = overlay-IsValid (traffic _) app v tt
traffic_key-IsValid (char c) form app v =
    choose-IsValid (is_char b'd' b'D' (char c)) _ _ (overlay-IsValid (traffic _) app v tt) (
      choose-IsValid (is_char b'b' b'B' (char c)) _ _ (overlay-IsValid (traffic _) app v tt) (
        choose-IsValid (is_char b'u' b'U' (char c)) _ _ (overlay-IsValid (traffic _) app v tt) (
          choose-IsValid (is_char b'a' b'A' (char c)) _ _ (overlay-IsValid (traffic _) app v tt)
            v)))
traffic_key-IsValid back_tab form app v = v
traffic_key-IsValid backspace form app v = v
traffic_key-IsValid up form app v = v
traffic_key-IsValid down form app v = v
traffic_key-IsValid other form app v = v

add_key-IsValid :
    (code : KeyCode) (form : AddRuleForm) (app : App)
    → IsValid app
    → IsValid (handle_add_overlay_key code form app).1
unfolding handle_add_overlay_key
add_key-IsValid esc form app v = overlay-IsValid closed app v tt
add_key-IsValid enter form app v = submit_rule-IsValid (rule_command form) app v
add_key-IsValid tab form app v = overlay-IsValid (adding _) app v tt
add_key-IsValid back_tab form app v = overlay-IsValid (adding _) app v tt
add_key-IsValid backspace form app v = overlay-IsValid (adding _) app v tt
add_key-IsValid (char c) form app v =
    choose-IsValid (not (is_control c)) _ _ (overlay-IsValid (adding _) app v tt) v
add_key-IsValid left form app v = v
add_key-IsValid right form app v = v
add_key-IsValid up form app v = v
add_key-IsValid down form app v = v
add_key-IsValid other form app v = v

answer_key-IsValid :
    (code : KeyCode) (form : AnswerPromptForm) (app : App)
    → can_answer form.prompt ≡ true
    → IsValid app
    → IsValid (handle_answer_overlay_key code form app).1
unfolding handle_answer_overlay_key
answer_key-IsValid esc form app f v = overlay-IsValid closed app v tt
answer_key-IsValid enter form app f v =
    choose-IsValid (not (can_answer form.prompt)) _ _ (overlay-IsValid (notice _) app v tt)
      (overlay-IsValid closed app v tt)
answer_key-IsValid left form app f v = overlay-IsValid (answering _) app v f
answer_key-IsValid right form app f v = overlay-IsValid (answering _) app v f
answer_key-IsValid tab form app f v = overlay-IsValid (answering _) app v f
answer_key-IsValid back_tab form app f v = overlay-IsValid (answering _) app v f
answer_key-IsValid (char c) form app f v =
    choose-IsValid (is_char b'a' b'A' (char c)) _ _ (overlay-IsValid (answering _) app v f)
      (choose-IsValid (is_char b'd' b'D' (char c)) _ _ (overlay-IsValid (answering _) app v f) v)
answer_key-IsValid backspace form app f v = v
answer_key-IsValid up form app f v = v
answer_key-IsValid down form app f v = v
answer_key-IsValid other form app f v = v

-- The form is opened only for a prompt that can be answered.
opened-IsValid :
    (b : Bool) (row : PromptRow) (message : Text) (app : App)
    → can_answer row ≡ b
    → IsValid app
    → IsValid
        (if b
          then with_overlay (answering (new_answer_form row)) app
          else with_overlay (notice message) app).1
opened-IsValid true row message app e v = overlay-IsValid (answering (new_answer_form row)) app v e
opened-IsValid false row message app e v = overlay-IsValid (notice message) app v tt

open_answer-IsValid :
    (row : Option PromptRow) (app : App) → IsValid app → IsValid (open_answer row app).1
open_answer-IsValid none app v = v
open_answer-IsValid (some row) app v = opened-IsValid (can_answer row) row _ app refl v

set_filter-IsValid :
    (f : EventsVerdictFilter) (message : Text) (app : App)
    → IsValid app
    → IsValid (set_filter f message app)
set_filter-IsValid f message app v = record {
  selected = omega arith;
  bounded = v.bounded;
  fresh = v.fresh;
}

either-IsValid : (b : Bool) (x y : App) → IsValid x → IsValid y → IsValid (if b then x else y)
either-IsValid true x y v w = v
either-IsValid false x y v w = w

filter_key-IsValid : (c : ℕ) (app : App) → IsValid app → IsValid (handle_events_filter_key c app)
unfolding handle_events_filter_key
filter_key-IsValid c app v =
    either-IsValid (nat_eq c b'f') _ _ (set_filter-IsValid (next_filter app.events_filter) _ app v)
      (set_filter-IsValid all _ app v)

tab_char-IsValid :
    (t : Tab) (c : ℕ) (app : App) → IsValid app → IsValid (handle_tab_key t (char c) app).1
unfolding handle_tab_key open_answer_overlay
tab_char-IsValid Tab.rules c app v =
    choose-IsValid (nat_eq c b'a') _ _ (overlay-IsValid (adding _) app v tt)
      (choose-IsValid (nat_eq c b'd') _ _ v (choose-IsValid (nat_eq c b'r') _ _ v v))
tab_char-IsValid Tab.prompts c app v =
    choose-IsValid (nat_eq c b'a') _ _
      (open_answer-IsValid (get_elem? app.prompts app.list_selected) app v)
      (choose-IsValid (nat_eq c b'r') _ _ v v)
tab_char-IsValid Tab.status c app v =
    choose-IsValid (nat_eq c b't') _ _ (overlay-IsValid (traffic _) app v tt) (
      choose-IsValid (nat_eq c b'b') _ _ v
        (choose-IsValid (nat_eq c b'B') _ _ v (choose-IsValid (nat_eq c b'u') _ _ v v)))
tab_char-IsValid Tab.events c app v =
    choose-IsValid (nat_eq c b'f' || nat_eq c b'c') _ _ (filter_key-IsValid c app v) v
tab_char-IsValid Tab.apps c app v = v
tab_char-IsValid Tab.help c app v = v

tab_key-IsValid :
    (t : Tab) (code : KeyCode) (app : App) → IsValid app → IsValid (handle_tab_key t code app).1
unfolding handle_tab_key open_answer_overlay
tab_key-IsValid t (char c) app v = tab_char-IsValid t c app v
tab_key-IsValid Tab.prompts enter app v =
    open_answer-IsValid (get_elem? app.prompts app.list_selected) app v
tab_key-IsValid Tab.rules _ app v = v
tab_key-IsValid Tab.prompts _ app v = v
tab_key-IsValid Tab.status _ app v = v
tab_key-IsValid Tab.events _ app v = v
tab_key-IsValid Tab.apps _ app v = v
tab_key-IsValid Tab.help _ app v = v

pane-IsValid : (pane : Pane) (app : App) → IsValid app → IsValid (record app { pane = pane })
pane-IsValid pane app v = record { selected = v.selected; bounded = v.bounded; fresh = v.fresh }

-- The keys that move the panes and the selection, and then those of the tab
move_char-IsValid :
    (c : ℕ) (app : App)
    → IsValid app
    → IsValid
        (if nat_eq c b'h' && has_split app.tab
          then (nothing, record app { pane = Pane.list })
          else if nat_eq c b'l' && has_split app.tab
          then (nothing, record app { pane = Pane.detail })
          else if nat_eq c b'j' && is_list app.pane
          then (nothing, move_list true app)
          else if nat_eq c b'k' && is_list app.pane
          then (nothing, move_list false app)
          else handle_tab_key app.tab (char c) app).1
move_char-IsValid c app v =
    choose-IsValid (nat_eq c b'h' && has_split app.tab) _ _ (pane-IsValid Pane.list app v) (
      choose-IsValid (nat_eq c b'l' && has_split app.tab) _ _ (pane-IsValid Pane.detail app v) (
        choose-IsValid (nat_eq c b'j' && is_list app.pane) _ _ (move_list-IsValid true app v) (
          choose-IsValid (nat_eq c b'k' && is_list app.pane) _ _ (move_list-IsValid false app v)
            (tab_char-IsValid app.tab c app v))))

root_char-IsValid : (c : ℕ) (app : App) → IsValid app → IsValid (handle_root_char c app).1
unfolding handle_root_char
root_char-IsValid c app v = choose-IsValid (nat_eq c b'q' || nat_eq c b'Q') _ _ v (
    choose-IsValid (nat_eq c b'?') _ _ (overlay-IsValid (notice _) app v tt) (
      choose-IsValid (nat_eq c b'1') _ _ (set_tab-IsValid Tab.status app v) (
        choose-IsValid (nat_eq c b'2') _ _ (set_tab-IsValid Tab.apps app v) (
          choose-IsValid (nat_eq c b'3') _ _ (set_tab-IsValid Tab.rules app v) (
            choose-IsValid (nat_eq c b'4') _ _ (set_tab-IsValid Tab.prompts app v) (
              choose-IsValid (nat_eq c b'5') _ _ (set_tab-IsValid Tab.events app v) (
                choose-IsValid (nat_eq c b'6') _ _ (set_tab-IsValid Tab.help app v)
                  (move_char-IsValid c app v))))))))

root_key-IsValid : (code : KeyCode) (app : App) → IsValid app → IsValid (handle_root_key code app).1
unfolding handle_root_key
root_key-IsValid left app v = set_tab-IsValid (prev_tab app.tab) app v
root_key-IsValid back_tab app v = set_tab-IsValid (prev_tab app.tab) app v
root_key-IsValid right app v = set_tab-IsValid (next_tab app.tab) app v
root_key-IsValid tab app v = set_tab-IsValid (next_tab app.tab) app v
root_key-IsValid down app v =
    choose-IsValid (is_list app.pane) _ _ (move_list-IsValid true app v)
      (tab_key-IsValid app.tab down app v)
root_key-IsValid up app v =
    choose-IsValid (is_list app.pane) _ _ (move_list-IsValid false app v)
      (tab_key-IsValid app.tab up app v)
root_key-IsValid (char c) app v = root_char-IsValid c app v
root_key-IsValid esc app v = tab_key-IsValid app.tab esc app v
root_key-IsValid enter app v = tab_key-IsValid app.tab enter app v
root_key-IsValid backspace app v = tab_key-IsValid app.tab backspace app v
root_key-IsValid other app v = tab_key-IsValid app.tab other app v

overlay_key-IsValid :
    (overlay : Overlay) (code : KeyCode) (app : App)
    → IsFresh overlay
    → IsValid app
    → IsValid (handle_overlay_key overlay code app).1
unfolding handle_overlay_key
overlay_key-IsValid closed code app f v = root_key-IsValid code app v
overlay_key-IsValid (notice message) code app f v =
    choose-IsValid (dismisses code) _ _ (overlay-IsValid closed app v tt) v
overlay_key-IsValid (adding form) code app f v = add_key-IsValid code form app v
overlay_key-IsValid (answering form) code app f v = answer_key-IsValid code form app f v
overlay_key-IsValid (traffic form) code app f v = traffic_key-IsValid code form app v

pub handle_key-IsValid :
    (code : KeyCode) (app : App) → IsValid app → IsValid (handle_key code app).1
unfolding handle_key
handle_key-IsValid code app v = overlay_key-IsValid app.overlay code app v.fresh v

-- A step of the client's loop: an event from the daemon, or a key
pub data Step : App → App → Type 0 where
  event : (e : IpcEvent) (app : App) → Step app (apply e app)
  key : (code : KeyCode) (app : App) → Step app (handle_key code app).1

-- The states that a started client comes to
pub data Reach (socket : Text) : App → Type 0 where
  start : Reach socket (new socket)
  next : {app app' : App} → Reach socket app → Step app app' → Reach socket app'

Step-IsValid : {app app' : App} → Step app app' → IsValid app → IsValid app'
Step-IsValid (event e app) v = apply-IsValid e app v
Step-IsValid (key code app) v = handle_key-IsValid code app v

-- In every state that the client comes to, by whatever keys and events in whatever order, the selection is on a row of the list that is shown, or the first if it is empty, the log has at most 2000 lines, and an answer form is about a prompt that could be answered when it was received.
pub Reach-IsValid : (socket : Text) {app : App} → Reach socket app → IsValid app
unfolding new
Reach-IsValid socket start = record { selected = omega arith; bounded = omega arith; fresh = tt }
Reach-IsValid socket (next r step) = Step-IsValid step (Reach-IsValid socket r)
