-- ===== src/Tui/Keys.antt =====
-- crates/interfire-tui/src/app.rs: `handle_key`. Each handler gives the action of the key and the
-- client after it.
use inter_fire.Prelude.{
  ℕ, ◌+◌, ◌-◌, ◌%◌, Bool, true, false, not, ◌&&◌, ◌||◌, Option, none, some, [], ◌∷◌, ◌++◌, Text,
  lit, get_elem?, length, take, if◌then◌else◌, leb, ltb, nat_eq,
}
use inter_fire.Proto.Rows.{RuleRow, PromptRow, can_answer}
use inter_fire.Tui.{
  Tab, next_tab, prev_tab, has_split, Pane, KeyCode, esc, enter, tab, back_tab, backspace, left,
  right, up, down, char, IpcCommand, Submitted, AddRuleForm, next_field, prev_field, edit,
  new_rule_form, rule_command, AnswerPromptForm, AnswerVerdict, toggle_verdict, next_scope,
  prev_scope, new_answer_form, answer_command, TrafficForm, TrafficActionChoice, toggle_scope,
  next_direction, prev_direction, toggle_action, new_traffic_form, traffic_command, Overlay, closed,
  notice, adding, answering, traffic, KeyAction, nothing, quit, command,
}
use inter_fire.Tui.App.{
  App, EventsVerdictFilter, all, allow, deny, prompt, clamp_selection, list_len,
}

abbrev pub with_overlay : Overlay → App → KeyAction × App
with_overlay overlay app = (nothing, record app { overlay = overlay })

abbrev pub is_char : ℕ → ℕ → KeyCode → Bool
is_char c d (char e) = nat_eq e c || nat_eq e d
is_char c d _ = false

abbrev pub submit_form : Submitted → App → KeyAction × App
submit_form (Submitted.ok c) app = (command c, record app { overlay = closed })
submit_form (Submitted.err message) app = with_overlay (notice message) app

-- `handle_traffic_overlay_key`
unfoldable pub handle_traffic_overlay_key : KeyCode → TrafficForm → App → KeyAction × App
handle_traffic_overlay_key esc form app = with_overlay closed app
handle_traffic_overlay_key enter form app = submit_form (traffic_command form) app
handle_traffic_overlay_key tab form app =
    with_overlay (traffic (record form { scope = toggle_scope form.scope })) app
handle_traffic_overlay_key left form app =
    with_overlay (traffic (record form { direction = prev_direction form.direction })) app
handle_traffic_overlay_key right form app =
    with_overlay (traffic (record form { direction = next_direction form.direction })) app
handle_traffic_overlay_key code form app =
    if is_char b'd' b'D' code
    then with_overlay (traffic (record form { direction = next_direction form.direction })) app
    else if is_char b'b' b'B' code
    then with_overlay (traffic (record form { action = TrafficActionChoice.block })) app
    else if is_char b'u' b'U' code
    then with_overlay (traffic (record form { action = TrafficActionChoice.unblock })) app
    else if is_char b'a' b'A' code
    then with_overlay (traffic (record form { action = toggle_action form.action })) app
    else (nothing, app)

-- `char::is_control`
abbrev pub is_control : ℕ → Bool
is_control c = ltb c 32 || (leb 127 c && ltb c 160)

-- `String::pop`
abbrev pub pop : Text → Text
pop s = take (length s - 1) s

abbrev pub submit_rule : Submitted → App → KeyAction × App
submit_rule (Submitted.ok c) app = (command c, record app { overlay = closed })
submit_rule (Submitted.err message) app = (nothing, record app { status_message = some message })

-- `handle_add_overlay_key`
unfoldable pub handle_add_overlay_key : KeyCode → AddRuleForm → App → KeyAction × App
handle_add_overlay_key esc form app = with_overlay closed app
handle_add_overlay_key enter form app = submit_rule (rule_command form) app
handle_add_overlay_key tab form app =
    with_overlay (adding (record form { focus = next_field form.focus })) app
handle_add_overlay_key back_tab form app =
    with_overlay (adding (record form { focus = prev_field form.focus })) app
handle_add_overlay_key backspace form app = with_overlay (adding (edit pop form.focus form)) app
handle_add_overlay_key (char c) form app =
    if not (is_control c)
    then with_overlay (adding (edit (λ s. s ++ (c ∷ [])) form.focus form)) app
    else (nothing, app)
handle_add_overlay_key _ form app = (nothing, app)

-- `handle_answer_overlay_key`
unfoldable pub handle_answer_overlay_key : KeyCode → AnswerPromptForm → App → KeyAction × App
handle_answer_overlay_key esc form app = with_overlay closed app
handle_answer_overlay_key enter form app =
    if not (can_answer form.prompt)
    then with_overlay (notice (lit "prompt expired or stale; actions disabled")) app
    else (command (answer_command form), record app { overlay = closed })
handle_answer_overlay_key left form app =
    with_overlay (answering (record form { verdict = toggle_verdict form.verdict })) app
handle_answer_overlay_key right form app =
    with_overlay (answering (record form { verdict = toggle_verdict form.verdict })) app
handle_answer_overlay_key tab form app =
    with_overlay (answering (record form { scope = next_scope form.scope })) app
handle_answer_overlay_key back_tab form app =
    with_overlay (answering (record form { scope = prev_scope form.scope })) app
handle_answer_overlay_key code form app =
    if is_char b'a' b'A' code
    then with_overlay (answering (record form { verdict = AnswerVerdict.allow })) app
    else if is_char b'd' b'D' code
    then with_overlay (answering (record form { verdict = AnswerVerdict.deny })) app
    else (nothing, app)

-- `set_tab`
unfoldable pub set_tab : Tab → App → App
unfolding clamp_selection
set_tab t app = clamp_selection (record app { tab = t; pane = Pane.list; list_selected = 0 })

-- `move_list` by one row, forwards and backwards: `rem_euclid` by the length
abbrev pub moved : Bool → ℕ → ℕ → ℕ
moved forwards len selected =
    if nat_eq len 0
    then 0
    else if forwards
    then (selected + 1) % len
    else (selected + (len - 1)) % len

unfoldable pub move_list : Bool → App → App
move_list forwards app = record app {
  list_selected = moved forwards (list_len app) app.list_selected;
}

abbrev pub open_answer : Option PromptRow → App → KeyAction × App
open_answer none app = (nothing, app)
open_answer (some row) app =
    if can_answer row
    then with_overlay (answering (new_answer_form row)) app
    else with_overlay (notice (lit "prompt expired or stale; answer disabled")) app

-- `open_answer_overlay`
unfoldable pub open_answer_overlay : App → KeyAction × App
open_answer_overlay app = open_answer (get_elem? app.prompts app.list_selected) app

abbrev pub delete_row : Option RuleRow → KeyAction
delete_row none = nothing
delete_row (some row) = command (IpcCommand.delete_rule row.id)

-- `delete_selected_rule`
unfoldable pub delete_selected_rule : App → KeyAction
delete_selected_rule app = delete_row (get_elem? app.rules app.list_selected)

abbrev pub next_filter : EventsVerdictFilter → EventsVerdictFilter
next_filter all = allow
next_filter allow = deny
next_filter deny = prompt
next_filter prompt = all

abbrev pub filter_label : EventsVerdictFilter → Text
filter_label all = lit "All"
filter_label allow = lit "Allow"
filter_label deny = lit "Deny"
filter_label prompt = lit "Prompt"

abbrev pub set_filter : EventsVerdictFilter → Text → App → App
set_filter f message app = record app {
  events_filter = f;
  list_selected = 0;
  status_message = some message;
}

-- `handle_events_filter_key`, at its two keys
unfoldable pub handle_events_filter_key : ℕ → App → App
handle_events_filter_key c app =
    if nat_eq c b'f'
    then (let f = next_filter app.events_filter in
        set_filter f (lit "Events filter: " ++ filter_label f) app)
    else set_filter all (lit "Events filter cleared") app

-- The arms of `handle_root_key` that a tab has of its own, for the keys that no arm before them takes
unfoldable pub handle_tab_key : Tab → KeyCode → App → KeyAction × App
unfolding open_answer_overlay delete_selected_rule handle_events_filter_key
handle_tab_key Tab.rules (char c) app =
    if nat_eq c b'a'
    then with_overlay (adding new_rule_form) app
    else if nat_eq c b'd'
    then (delete_selected_rule app, app)
    else if nat_eq c b'r'
    then (command IpcCommand.refresh_rules, app)
    else (nothing, app)
handle_tab_key Tab.prompts enter app = open_answer_overlay app
handle_tab_key Tab.prompts (char c) app =
    if nat_eq c b'a'
    then open_answer_overlay app
    else if nat_eq c b'r'
    then (command IpcCommand.refresh_prompts, app)
    else (nothing, app)
handle_tab_key Tab.status (char c) app =
    if nat_eq c b't'
    then with_overlay (traffic new_traffic_form) app
    else if nat_eq c b'b'
    then (command (IpcCommand.traffic_block (lit "user") (lit "out")), app)
    else if nat_eq c b'B'
    then (command (IpcCommand.traffic_block (lit "user") (lit "all")), app)
    else if nat_eq c b'u'
    then (command (IpcCommand.traffic_unblock (lit "user")), app)
    else (nothing, app)
handle_tab_key Tab.events (char c) app =
    if nat_eq c b'f' || nat_eq c b'c'
    then (nothing, handle_events_filter_key c app)
    else (nothing, app)
handle_tab_key _ code app = (nothing, app)

abbrev pub is_list : Pane → Bool
is_list Pane.list = true
is_list Pane.detail = false

-- The arms of `handle_root_key` for characters, down to those of the tabs
unfoldable pub handle_root_char : ℕ → App → KeyAction × App
unfolding handle_tab_key set_tab move_list
handle_root_char c app =
    if nat_eq c b'q' || nat_eq c b'Q'
    then (quit, app)
    else if nat_eq c b'?'
    then with_overlay (notice (lit "Press Esc to dismiss this overlay.")) app
    else if nat_eq c b'1'
    then (nothing, set_tab Tab.status app)
    else if nat_eq c b'2'
    then (nothing, set_tab Tab.apps app)
    else if nat_eq c b'3'
    then (nothing, set_tab Tab.rules app)
    else if nat_eq c b'4'
    then (nothing, set_tab Tab.prompts app)
    else if nat_eq c b'5'
    then (nothing, set_tab Tab.events app)
    else if nat_eq c b'6'
    then (nothing, set_tab Tab.help app)
    else if nat_eq c b'h' && has_split app.tab
    then (nothing, record app { pane = Pane.list })
    else if nat_eq c b'l' && has_split app.tab
    then (nothing, record app { pane = Pane.detail })
    else if nat_eq c b'j' && is_list app.pane
    then (nothing, move_list true app)
    else if nat_eq c b'k' && is_list app.pane
    then (nothing, move_list false app)
    else handle_tab_key app.tab (char c) app

-- `handle_root_key`
unfoldable pub handle_root_key : KeyCode → App → KeyAction × App
unfolding handle_root_char set_tab move_list handle_tab_key
handle_root_key left app = (nothing, set_tab (prev_tab app.tab) app)
handle_root_key back_tab app = (nothing, set_tab (prev_tab app.tab) app)
handle_root_key right app = (nothing, set_tab (next_tab app.tab) app)
handle_root_key tab app = (nothing, set_tab (next_tab app.tab) app)
handle_root_key down app =
    if is_list app.pane then (nothing, move_list true app) else handle_tab_key app.tab down app
handle_root_key up app =
    if is_list app.pane then (nothing, move_list false app) else handle_tab_key app.tab up app
handle_root_key (char c) app = handle_root_char c app
handle_root_key code app = handle_tab_key app.tab code app

abbrev pub dismisses : KeyCode → Bool
dismisses esc = true
dismisses enter = true
dismisses (char c) = nat_eq c b'q'
dismisses _ = false

-- The match of `handle_key` over the overlay
unfoldable pub handle_overlay_key : Overlay → KeyCode → App → KeyAction × App
unfolding handle_root_key handle_add_overlay_key handle_answer_overlay_key
    handle_traffic_overlay_key
handle_overlay_key closed code app = handle_root_key code app
handle_overlay_key (notice message) code app =
    if dismisses code then with_overlay closed app else (nothing, app)
handle_overlay_key (adding form) code app = handle_add_overlay_key code form app
handle_overlay_key (answering form) code app = handle_answer_overlay_key code form app
handle_overlay_key (traffic form) code app = handle_traffic_overlay_key code form app

-- `handle_key`
unfoldable pub handle_key : KeyCode → App → KeyAction × App
unfolding handle_overlay_key
handle_key code app = handle_overlay_key app.overlay code app
