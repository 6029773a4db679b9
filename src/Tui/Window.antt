-- ===== src/Tui/Window.antt =====
-- crates/interfire-tui/src/app.rs: `visible_list` and `detail_lines`, what is drawn of a list and of
-- its selected row.
pub mod Shown
pub mod Unfiltered
use inter_fire.Prelude.{
  ℕ, ◌+◌, ◌-◌, ◌/◌, Bool, true, false, Option, none, some, List, [], ◌∷◌, ◌++◌, map, min, max, Text,
  lit, length, take, drop, get_elem?, show_nat, split_on, if◌then◌else◌, leb, nat_eq,
}
use inter_fire.Proto.Rows.{RuleRow, PromptRow, ProcessRow, can_answer}
use inter_fire.Proto.Status.{DaemonStatus}
use inter_fire.Tui.{Tab}
use inter_fire.Tui.App.{App, Link, connecting, down, up, filtered_audit}

pub record VisibleList : Type 0 where
  pub relative_selected : ℕ
  pub items : List Text
  pub start : ℕ
  pub total : ℕ

-- The pieces of a line, one after the other
abbrev pub line : List Text → Text
line [] = []
line (s ∷ pieces) = s ++ line pieces

-- The first line of the window: the selection in the middle, as far as the list reaches
abbrev pub start_of : ℕ → ℕ → ℕ → ℕ
start_of total height selected =
    if leb total height then 0 else min (selected - height / 2) (total - height)

abbrev pub window_of : List Text → ℕ → ℕ → VisibleList
window_of lines height selected =
    let start = start_of (length lines) height selected in
    record {
      relative_selected = selected - start;
      items = take (min (start + height) (length lines) - start) (drop start lines);
      start = start;
      total = length lines;
    }

abbrev pub nothing_visible : VisibleList
nothing_visible = record { relative_selected = 0; items = []; start = 0; total = 0 }

-- `visible_audit_window`
unfoldable pub visible_audit_window : ℕ → App → VisibleList
visible_audit_window viewport app =
    let lines = filtered_audit app in
    if nat_eq (length lines) 0
    then nothing_visible
    else window_of lines (max viewport 1) (min app.list_selected (length lines - 1))

-- `RuleRow::list_label`, `PromptRow::list_label`, `ProcessRow::list_label`
abbrev pub rule_label : RuleRow → Text
rule_label row = line (
    show_nat row.id
    ∷ lit "  "
    ∷ row.executable
    ∷ lit "  "
    ∷ row.verdict
    ∷ lit "  :"
    ∷ show_nat row.port
    ∷ [])

abbrev pub prompt_label : PromptRow → Text
prompt_label row = line (
    show_nat row.id
    ∷ lit "  "
    ∷ row.executable
    ∷ lit "  "
    ∷ row.destination
    ∷ lit ":"
    ∷ show_nat row.port
    ∷ lit " "
    ∷ row.protocol
    ∷ lit "  "
    ∷ show_nat row.remaining_secs
    ∷ lit "s"
    ∷ [])

abbrev pub process_label : ProcessRow → Text
process_label row = line (
    show_nat row.pid
    ∷ lit "  "
    ∷ row.executable
    ∷ lit "  "
    ∷ row.verdict
    ∷ lit "  "
    ∷ row.ports
    ∷ [])

abbrev pub whole_list : List Text → ℕ → VisibleList
whole_list items selected = record {
  relative_selected = selected;
  items = items;
  start = 0;
  total = length items;
}

abbrev pub visible_of : Tab → ℕ → App → VisibleList
visible_of Tab.events viewport app = visible_audit_window viewport app
visible_of Tab.apps viewport app = whole_list (map process_label app.processes) app.list_selected
visible_of Tab.rules viewport app = whole_list (map rule_label app.rules) app.list_selected
visible_of Tab.prompts viewport app = whole_list (map prompt_label app.prompts) app.list_selected
visible_of Tab.status viewport app = nothing_visible
visible_of Tab.help viewport app = nothing_visible

-- `visible_list`
unfoldable pub visible_list : ℕ → App → VisibleList
unfolding visible_audit_window
visible_list viewport app = visible_of app.tab viewport app

-- The lines of a selected row, or what stands there without one
abbrev pub destinations : Text → List Text
destinations [] = lit "  (none)" ∷ []
destinations (c ∷ ports) = map (λ dest. lit "  " ++ dest) (split_on b'+' (c ∷ ports))

abbrev pub process_lines : Option ProcessRow → List Text
process_lines none = lit "no observed processes yet" ∷ lit "outbound connects fill this list" ∷ []
process_lines (some row) =
    (lit "executable: " ++ row.executable)
    ∷ (lit "cmdline: " ++ row.cmdline)
    ∷ line (
        lit "pid: "
        ∷ show_nat row.pid
        ∷ lit "  start_ticks: "
        ∷ show_nat row.start_ticks
        ∷ lit "  uid: "
        ∷ show_nat row.uid
        ∷ [])
    ∷ (lit "effective rule: " ++ row.verdict)
    ∷ []
    ∷ lit "recent destinations:"
    ∷ destinations row.ports

abbrev pub rule_lines : Option RuleRow → List Text
rule_lines none = lit "no rules loaded" ∷ lit "a add · r refresh" ∷ []
rule_lines (some row) =
    (lit "id: " ++ show_nat row.id)
    ∷ (lit "executable: " ++ row.executable)
    ∷ (lit "verdict: " ++ row.verdict)
    ∷ (lit "port: " ++ show_nat row.port)
    ∷ []
    ∷ lit "a add · d delete · r refresh"
    ∷ []

abbrev pub prompt_lines : Option PromptRow → List Text
prompt_lines none = lit "no pending prompts" ∷ lit "r refresh" ∷ []
prompt_lines (some row) =
    (lit "id: " ++ show_nat row.id)
    ∷ (lit "path: " ++ row.executable)
    ∷ line (
        lit "dest: "
        ∷ row.destination
        ∷ lit ":"
        ∷ show_nat row.port
        ∷ lit " ("
        ∷ row.protocol
        ∷ lit ")"
        ∷ [])
    ∷ line (lit "remaining: " ∷ show_nat row.remaining_secs ∷ lit "s" ∷ [])
    ∷ []
    ∷ (if can_answer row
        then lit "a/Enter answer · r refresh"
        else lit "expired/stale · answer disabled")
    ∷ []

abbrev pub event_lines : Option Text → List Text
event_lines none = lit "no audit frame selected" ∷ []
event_lines (some text) = text ∷ []

abbrev pub subscription : Bool → Text
subscription true = lit "audit subscribe: ready (id=interfire-tui)"
subscription false = lit "audit subscribe: connecting…"

abbrev pub status_lines : Link → Text → Bool → List Text
status_lines connecting socket subscribed =
    (lit "ipc waiting  socket=" ++ socket) ∷ lit "waiting for daemon…" ∷ []
status_lines (down detail) socket subscribed =
    lit "daemon unavailable" ∷ (lit "socket=" ++ socket) ∷ detail ∷ []
status_lines (up body) socket subscribed =
    line (
      lit "enforcement="
      ∷ body.enforcement
      ∷ lit "  observation="
      ∷ body.observation
      ∷ lit "  ipc_version="
      ∷ show_nat body.ipc_version
      ∷ [])
    ∷ line (
        lit "traffic="
        ∷ body.traffic
        ∷ lit "  machine="
        ∷ body.traffic_machine
        ∷ lit "  user="
        ∷ body.traffic_user
        ∷ lit "  effective="
        ∷ body.traffic_effective
        ∷ [])
    ∷ (lit "socket=" ++ socket)
    ∷ subscription subscribed
    ∷ lit "Traffic: t overlay · b/B/u shortcuts · machine via pkexec CLI"
    ∷ []

-- `help_lines`
abbrev pub help_lines : List Text
help_lines =
    lit "Tabs: Left/Right or 1..6  (Status Apps Rules Prompts Events Help)"
    ∷ lit "Panes: h list · l detail  (Apps / Rules / Prompts / Events)"
    ∷ lit "List: j/k or Up/Down"
    ∷ lit "Events: f cycles All/Allow/Deny/Prompt · c clears filter · capped 2000"
    ∷ lit "Apps: observed firewall identities (path, pid+start ticks, ports)"
    ∷ lit "Rules: a add · d delete · r refresh"
    ∷ lit "Prompts: a/Enter answer · r refresh"
    ∷ lit "Traffic (Status): t overlay · b user out · B user all · u user unblock"
    ∷ lit "Traffic overlay: Tab scope · Left/Right direction · b/u action · Enter"
    ∷ lit "Machine traffic: pkexec interfirectl … (TUI does not elevate)"
    ∷ lit "Answer overlay: a/d verdict · Tab scope · Enter submit · Esc cancel"
    ∷ lit "Add overlay: Tab fields · Enter submit · Esc cancel"
    ∷ lit "Overlay: ? opens · Esc dismisses (Esc never quits root)"
    ∷ lit "Quit: q"
    ∷ []

-- The lines of each tab
abbrev pub lines_of : Tab → App → List Text
lines_of Tab.status app = status_lines app.link app.socket app.subscribed
lines_of Tab.apps app = process_lines (get_elem? app.processes app.list_selected)
lines_of Tab.rules app = rule_lines (get_elem? app.rules app.list_selected)
lines_of Tab.prompts app = prompt_lines (get_elem? app.prompts app.list_selected)
lines_of Tab.events app = event_lines (get_elem? app.audit app.list_selected)
lines_of Tab.help app = help_lines

-- `detail_lines`
unfoldable pub detail_lines : App → List Text
detail_lines app = lines_of app.tab app
