-- ===== src/Tui.antt =====
-- crates/interfire-tui/src/app.rs: the data of the terminal client, its tabs and its forms.
pub mod App
pub mod Keys
pub mod Window
pub mod Selection
pub mod Reachable
pub mod Meanings
pub mod Commands
pub mod Stale
pub mod Requests
pub mod Session
mod Tests
use inter_fire.Prelude.{
  ℕ, ◌-◌, ◌^◌, Bool, true, false, not, ◌||◌, ◌&&◌, Option, none, some, List, [], ◌∷◌, ◌++◌, Text,
  lit, eq_text, ◌==◌, if◌then◌else◌, starts_with, lower, leb, ltb,
}
use inter_fire.Proto.{parse_u64, parse_u16}
use inter_fire.Proto.Rows.{PromptRow, can_answer}

pub data Tab : Type 0 where
  status apps rules prompts events help : Tab

-- `Tab::from_index(index + 1)` and `from_index(index - 1)`, round the ends
abbrev pub next_tab : Tab → Tab
next_tab status = apps
next_tab apps = rules
next_tab rules = prompts
next_tab prompts = events
next_tab events = help
next_tab help = status

abbrev pub prev_tab : Tab → Tab
prev_tab status = help
prev_tab apps = status
prev_tab rules = apps
prev_tab prompts = rules
prev_tab events = prompts
prev_tab help = events

-- `Tab::has_split`
abbrev pub has_split : Tab → Bool
has_split status = false
has_split help = false
has_split _ = true

pub data Pane : Type 0 where
  list detail : Pane

-- `KeyCode` of the terminal library, as far as the client tells keys apart
pub data KeyCode : Type 0 where
  esc enter tab back_tab backspace left right up down other : KeyCode
  char : ℕ → KeyCode

-- `IpcCommand` of crates/interfire-tui/src/ipc.rs
pub data IpcCommand : Type 0 where
  refresh_rules refresh_prompts : IpcCommand
  delete_rule : (id : ℕ) → IpcCommand
  add_rule : (id : ℕ) → (executable : Text) → (verdict : Text) → (port : ℕ) → IpcCommand
  answer_prompt : (id : ℕ) → (verdict : Text) → (scope : Text) → IpcCommand
  traffic_block : (scope : Text) → (direction : Text) → IpcCommand
  traffic_unblock : (scope : Text) → IpcCommand

-- A command, or why there is none
pub data Submitted : Type 0 where
  ok : IpcCommand → Submitted
  err : Text → Submitted

pub data AddField : Type 0 where
  id executable verdict port : AddField

abbrev pub next_field : AddField → AddField
next_field id = executable
next_field executable = verdict
next_field verdict = port
next_field port = id

abbrev pub prev_field : AddField → AddField
prev_field id = port
prev_field executable = id
prev_field verdict = executable
prev_field port = verdict

pub record AddRuleForm : Type 0 where
  pub id : Text
  pub executable : Text
  pub verdict : Text
  pub port : Text
  pub focus : AddField

-- `AddRuleForm::new`
abbrev pub new_rule_form : AddRuleForm
new_rule_form = record {
  id = [];
  executable = [];
  verdict = lit "deny";
  port = lit "443";
  focus = AddField.id;
}

-- A change of the text under the focus (`focused_mut`)
abbrev pub edit : (Text → Text) → AddField → AddRuleForm → AddRuleForm
edit f AddField.id form = record form { id = f form.id }
edit f AddField.executable form = record form { executable = f form.executable }
edit f AddField.verdict form = record form { verdict = f form.verdict }
edit f AddField.port form = record form { port = f form.port }

abbrev pub is_absolute : Text → Bool
is_absolute path = starts_with (b'/' ∷ []) path

abbrev pub is_verdict : Text → Bool
is_verdict word = word == lit "allow" || (word == lit "deny" || word == lit "prompt")

abbrev pub with_port : ℕ → Text → Text → Option ℕ → Submitted
with_port n path word none = err (lit "port must be 0..65535")
with_port n path word (some p) = ok (add_rule n path word p)

abbrev pub with_id : AddRuleForm → Option ℕ → Submitted
with_id form none = err (lit "id must be an integer")
with_id form (some n) =
    if not (is_absolute form.executable)
    then err (lit "executable must be an absolute path")
    else if not (is_verdict (lower form.verdict))
    then err (lit "verdict must be allow|deny|prompt")
    else with_port n form.executable (lower form.verdict) (parse_u16 form.port)

-- `AddRuleForm::to_command`
unfoldable pub rule_command : AddRuleForm → Submitted
rule_command form = with_id form (parse_u64 form.id)

pub data AnswerVerdict : Type 0 where
  allow deny : AnswerVerdict

abbrev pub toggle_verdict : AnswerVerdict → AnswerVerdict
toggle_verdict allow = deny
toggle_verdict deny = allow

abbrev pub verdict_str : AnswerVerdict → Text
verdict_str allow = lit "allow"
verdict_str deny = lit "deny"

pub data AnswerScope : Type 0 where
  once session permanent : AnswerScope

abbrev pub next_scope : AnswerScope → AnswerScope
next_scope once = session
next_scope session = permanent
next_scope permanent = once

abbrev pub prev_scope : AnswerScope → AnswerScope
prev_scope once = permanent
prev_scope session = once
prev_scope permanent = session

abbrev pub scope_str : AnswerScope → Text
scope_str once = lit "once"
scope_str session = lit "session"
scope_str permanent = lit "permanent"

pub record AnswerPromptForm : Type 0 where
  pub prompt : PromptRow
  pub verdict : AnswerVerdict
  pub scope : AnswerScope

-- `AnswerPromptForm::new`
abbrev pub new_answer_form : PromptRow → AnswerPromptForm
new_answer_form prompt = record { prompt = prompt; verdict = deny; scope = once }

-- `AnswerPromptForm::to_command`
unfoldable pub answer_command : AnswerPromptForm → IpcCommand
answer_command form = answer_prompt form.prompt.id (verdict_str form.verdict) (scope_str form.scope)

pub data TrafficScopeChoice : Type 0 where
  user machine : TrafficScopeChoice

abbrev pub toggle_scope : TrafficScopeChoice → TrafficScopeChoice
toggle_scope user = machine
toggle_scope machine = user

pub data TrafficDirectionChoice : Type 0 where
  out in_ all : TrafficDirectionChoice

abbrev pub next_direction : TrafficDirectionChoice → TrafficDirectionChoice
next_direction out = in_
next_direction in_ = all
next_direction all = out

abbrev pub prev_direction : TrafficDirectionChoice → TrafficDirectionChoice
prev_direction out = all
prev_direction in_ = out
prev_direction all = in_

abbrev pub direction_str : TrafficDirectionChoice → Text
direction_str out = lit "out"
direction_str in_ = lit "in"
direction_str all = lit "all"

pub data TrafficActionChoice : Type 0 where
  block unblock : TrafficActionChoice

abbrev pub toggle_action : TrafficActionChoice → TrafficActionChoice
toggle_action block = unblock
toggle_action unblock = block

pub record TrafficForm : Type 0 where
  pub scope : TrafficScopeChoice
  pub direction : TrafficDirectionChoice
  pub action : TrafficActionChoice

-- `TrafficForm::new`
abbrev pub new_traffic_form : TrafficForm
new_traffic_form = record { scope = user; direction = out; action = block }

-- The message that sends the operator to the command line
abbrev pub machine_notice : Text
machine_notice =
    lit "machine traffic needs: pkexec interfirectl traffic block|unblock --scope=machine …"

abbrev pub submit_traffic :
    TrafficScopeChoice → TrafficActionChoice → TrafficDirectionChoice → Submitted
submit_traffic machine action direction = err machine_notice
submit_traffic user block direction = ok (traffic_block (lit "user") (direction_str direction))
submit_traffic user unblock direction = ok (traffic_unblock (lit "user"))

-- `TrafficForm::to_command`
unfoldable pub traffic_command : TrafficForm → Submitted
traffic_command form = submit_traffic form.scope form.action form.direction

-- `closed` is `Overlay::None`.
pub data Overlay : Type 0 where
  closed : Overlay
  notice : Text → Overlay
  adding : AddRuleForm → Overlay
  answering : AnswerPromptForm → Overlay
  traffic : TrafficForm → Overlay

-- `nothing` is `KeyAction::None`.
pub data KeyAction : Type 0 where
  nothing quit : KeyAction
  command : IpcCommand → KeyAction
