-- ===== src/Tui/App.antt =====
-- crates/interfire-tui/src/app.rs: the state of the client, the events that it takes from the daemon,
-- and the selection in its lists.
use inter_fire.Prelude.{
  ℕ, ◌-◌, Bool, true, false, ◌&&◌, Option, none, some, List, [], ◌∷◌, ◌++◌, Text, lit, length,
  filter, drop, has_infix, show_nat, if◌then◌else◌, leb, ltb, nat_eq, eq_text, ◌==◌, ◌||◌,
}
use inter_fire.Proto.Rows.{RuleRow, PromptRow, ProcessRow, AuditStreamRecord}
use inter_fire.Proto.Status.{DaemonStatus, StatsSummary}
use inter_fire.Tui.{Tab, Pane, Overlay, closed, notice}

pub data Link : Type 0 where
  connecting : Link
  down : Text → Link
  up : DaemonStatus → Link

pub data EventsVerdictFilter : Type 0 where
  all allow deny prompt : EventsVerdictFilter

-- `EventsVerdictFilter::matches`
abbrev pub shows : EventsVerdictFilter → Text → Bool
shows all line = true
shows allow line = has_infix (lit "outcome=allow") line
shows deny line = has_infix (lit "outcome=deny") line
shows prompt line = has_infix (lit "outcome=prompt") line

pub record App : Type 0 where
  pub socket : Text
  pub link : Link
  pub audit : List Text
  pub rules : List RuleRow
  pub prompts : List PromptRow
  pub processes : List ProcessRow
  pub subscribed : Bool
  pub tab : Tab
  pub pane : Pane
  pub list_selected : ℕ
  pub overlay : Overlay
  pub status_message : Option Text
  pub stats_summary : Option StatsSummary
  pub events_filter : EventsVerdictFilter

-- `App::new`
unfoldable pub new : Text → App
new socket = record {
  socket = socket;
  link = connecting;
  audit = [];
  rules = [];
  prompts = [];
  processes = [];
  subscribed = false;
  tab = Tab.status;
  pane = Pane.list;
  list_selected = 0;
  overlay = closed;
  status_message = none;
  stats_summary = none;
  events_filter = EventsVerdictFilter.all;
}

-- `MAX_AUDIT_LINES`
abbrev pub max_audit_lines : ℕ
max_audit_lines = 2000

-- `filtered_audit`
abbrev pub filtered_audit : App → List Text
filtered_audit app = filter (shows app.events_filter) app.audit

abbrev pub len_of : Tab → List Text → List ProcessRow → List RuleRow → List PromptRow → ℕ
len_of Tab.events lines processes rules prompts = length lines
len_of Tab.apps lines processes rules prompts = length processes
len_of Tab.rules lines processes rules prompts = length rules
len_of Tab.prompts lines processes rules prompts = length prompts
len_of Tab.status lines processes rules prompts = 0
len_of Tab.help lines processes rules prompts = 0

-- `list_len`
abbrev pub list_len : App → ℕ
list_len app = len_of app.tab (filtered_audit app) app.processes app.rules app.prompts

abbrev pub clamp : ℕ → ℕ → ℕ
clamp len selected = if nat_eq len 0 then 0 else if leb len selected then len - 1 else selected

-- `clamp_selection`
unfoldable pub clamp_selection : App → App
clamp_selection app = record app { list_selected = clamp (list_len app) app.list_selected }

abbrev pub is_events : Tab → Bool
is_events Tab.events = true
is_events _ = false

-- `pop_front`, where the selection stays on its line
abbrev pub popped : App → App
popped app = record app {
  audit = drop 1 app.audit;
  list_selected =
      (if ltb 0 app.list_selected && is_events app.tab
        then app.list_selected - 1
        else app.list_selected);
}

-- The first part of `push_audit_line`: room for the line
abbrev pub pop_front : App → App
pop_front app = if nat_eq (length app.audit) max_audit_lines then popped app else app

-- `push_audit_line`
unfoldable pub push_audit_line : Text → App → App
unfolding clamp_selection
push_audit_line line app =
    let app' = pop_front app in clamp_selection (record app' { audit = app'.audit ++ (line ∷ []) })

-- `IpcEvent` of crates/interfire-tui/src/ipc.rs
pub data IpcEvent : Type 0 where
  status : DaemonStatus → IpcEvent
  stats_summary : StatsSummary → IpcEvent
  down : Text → IpcEvent
  audit : AuditStreamRecord → IpcEvent
  subscription_ready : IpcEvent
  rules : List RuleRow → IpcEvent
  prompts : List PromptRow → IpcEvent
  processes : List ProcessRow → IpcEvent
  action_ok action_error : Text → IpcEvent

-- `App::apply`
unfoldable pub apply : IpcEvent → App → App
unfolding push_audit_line clamp_selection
apply (IpcEvent.status body) app = record app { link = up body }
apply (IpcEvent.stats_summary body) app = record app { stats_summary = some body }
apply (IpcEvent.down detail) app = record app { link = Link.down detail; subscribed = false }
apply (IpcEvent.audit r) app = push_audit_line (show_nat r.sequence ++ (lit "|" ++ r.message)) app
apply subscription_ready app = record app { subscribed = true }
apply (IpcEvent.rules rows) app = clamp_selection (record app { rules = rows })
apply (IpcEvent.prompts rows) app = clamp_selection (record app { prompts = rows })
apply (IpcEvent.processes rows) app = clamp_selection (record app { processes = rows })
apply (action_ok message) app = record app { status_message = some message }
apply (action_error message) app = record app {
  overlay = notice (lit "error: " ++ message);
  status_message = some (lit "error: " ++ message);
}

abbrev pub is_degraded : DaemonStatus → Bool
is_degraded body = body.observation == lit "degraded" || body.enforcement == lit "degraded"

-- `chrome_title`
abbrev pub chrome_title : Link → Text
chrome_title connecting = lit "connecting"
chrome_title (Link.down detail) = lit "daemon unavailable"
chrome_title (up body) = if is_degraded body then lit "degraded" else lit "live"
