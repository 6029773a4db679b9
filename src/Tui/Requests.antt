-- ===== src/Tui/Requests.antt =====
-- crates/interfire-tui/src/ipc.rs: `handle_command` and the exchanges that it makes. What the socket
-- comes to is an argument: the line that is read, or the error.
pub mod Frames
pub mod Refused
use inter_fire.Prelude.{
  ℕ, Bool, Option, none, some, List, [], ◌∷◌, ◌++◌, Text, lit, ◌+◌, show_nat, trim, trim_end,
  starts_with, strip_prefix, frame_of, if◌then◌else◌, ltb,
}
use inter_fire.Audit.{byte_length}
use inter_fire.Proto.Client.{Result}
use inter_fire.Proto.Rows.{RuleRow, PromptRow, parse_rules, parse_prompts}
use inter_fire.Tui.{IpcCommand}
use inter_fire.Tui.App.{IpcEvent, action_ok, action_error}

-- `io::Result` of a line or of rows; an error is its message
pub data Reply {ℓ} (A : Type ℓ) : Type ℓ where
  ok : A → Reply A
  err : Text → Reply A

-- `MAX_FRAME_BYTES`
abbrev pub max_frame_bytes : ℕ
max_frame_bytes = 8192

-- `one_shot`, of what the socket comes to
abbrev pub one_shot : Reply Text → Reply Text
one_shot (Reply.ok line) =
    if ltb max_frame_bytes (byte_length line)
    then Reply.err (lit "frame_too_large")
    else Reply.ok line
one_shot (Reply.err message) = Reply.err message

abbrev pub or_malformed {ℓ} : {A : Type ℓ} → Text → Result A → Reply A
or_malformed message (Result.ok a) = Reply.ok a
or_malformed message (Result.err e) = Reply.err message

abbrev pub fetched {ℓ} : {A : Type ℓ} → (Text → Result A) → Text → Reply Text → Reply A
fetched parse message (Reply.ok line) = or_malformed message (parse line)
fetched parse message (Reply.err error) = Reply.err error

-- `fetch_rules`, `fetch_prompts`
unfoldable pub fetch_rules : Reply Text → Reply (List RuleRow)
fetch_rules reply = fetched parse_rules (lit "malformed_rules") (one_shot reply)

unfoldable pub fetch_prompts : Reply Text → Reply (List PromptRow)
fetch_prompts reply = fetched parse_prompts (lit "malformed_prompts") (one_shot reply)

-- `parse_error_message` of crates/interfire-proto/src/lib.rs
unfoldable pub parse_error_message : Text → Option Text
parse_error_message frame = strip_prefix (lit "v1 error ") (trim_end frame)

abbrev pub or_trimmed : Text → Option Text → Text
or_trimmed frame none = trim frame
or_trimmed frame (some message) = message

-- The events of an exchange: those of a pong, or the error
unfoldable pub events_of : List IpcEvent → Reply Text → List IpcEvent
unfolding parse_error_message
events_of done (Reply.ok frame) =
    if starts_with (lit "v1 pong") frame
    then done
    else action_error (or_trimmed frame (parse_error_message frame)) ∷ []
events_of done (Reply.err message) = action_error message ∷ []

-- A list that is fetched for its own sake, and after a change
abbrev pub refreshed {ℓ} : {A : Type ℓ} → (A → IpcEvent) → Reply A → List IpcEvent
refreshed event (Reply.ok rows) = event rows ∷ []
refreshed event (Reply.err message) = action_error message ∷ []

abbrev pub followed {ℓ} : {A : Type ℓ} → (A → IpcEvent) → Reply A → List IpcEvent
followed event (Reply.ok rows) = event rows ∷ []
followed event (Reply.err message) = []

-- The frame that a command writes first
unfoldable pub request_frame : IpcCommand → Text
request_frame IpcCommand.refresh_rules = frame_of (lit "v1" ∷ lit "rule-list" ∷ [])
request_frame IpcCommand.refresh_prompts = frame_of (lit "v1" ∷ lit "prompt-list" ∷ [])
request_frame (IpcCommand.delete_rule id) =
    frame_of (lit "v1" ∷ lit "rule-delete" ∷ show_nat id ∷ [])
request_frame (IpcCommand.add_rule id executable verdict port) =
    frame_of (lit "v1" ∷ lit "rule-add" ∷ show_nat id ∷ executable ∷ verdict ∷ show_nat port ∷ [])
request_frame (IpcCommand.answer_prompt id verdict scope) =
    frame_of (lit "v1" ∷ lit "prompt-answer" ∷ show_nat id ∷ verdict ∷ scope ∷ [])
request_frame (IpcCommand.traffic_block scope direction) = frame_of (
    lit "v1" ∷ lit "traffic-block" ∷ (lit "scope=" ++ scope) ∷ (lit "direction=" ++ direction) ∷ [])
request_frame (IpcCommand.traffic_unblock scope) =
    frame_of (lit "v1" ∷ lit "traffic-unblock" ∷ (lit "scope=" ++ scope) ∷ [])

-- `handle_command`, with `mutate_then_refresh_rules`: the events that are sent, of the reply to the
-- command and of the reply to the list that is fetched after it
unfoldable pub handle_command : Reply Text → Reply Text → IpcCommand → List IpcEvent
unfolding fetch_rules fetch_prompts events_of
handle_command reply list IpcCommand.refresh_rules = refreshed IpcEvent.rules (fetch_rules reply)
handle_command reply list IpcCommand.refresh_prompts =
    refreshed IpcEvent.prompts (fetch_prompts reply)
handle_command reply list (IpcCommand.delete_rule id) =
    events_of
      (action_ok (lit "deleted rule " ++ show_nat id) ∷ followed IpcEvent.rules (fetch_rules list))
      (one_shot reply)
handle_command reply list (IpcCommand.add_rule id executable verdict port) =
    events_of
      (action_ok (lit "added rule " ++ show_nat id) ∷ followed IpcEvent.rules (fetch_rules list))
      (one_shot reply)
handle_command reply list (IpcCommand.answer_prompt id verdict scope) =
    events_of
      (action_ok
          (lit "answered prompt " ++ (show_nat id ++ (lit " " ++ (verdict ++ (lit "/" ++ scope)))))
        ∷ followed IpcEvent.prompts (fetch_prompts list))
      (one_shot reply)
handle_command reply list (IpcCommand.traffic_block scope direction) =
    events_of
      (action_ok (lit "traffic blocked scope=" ++ (scope ++ (lit " direction=" ++ direction))) ∷ [])
      (one_shot reply)
handle_command reply list (IpcCommand.traffic_unblock scope) =
    events_of (action_ok (lit "traffic unblocked scope=" ++ scope) ∷ []) (one_shot reply)
