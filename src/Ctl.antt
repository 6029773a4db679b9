-- ===== src/Ctl.antt =====
-- crates/interfirectl/src/main.rs: `parse_command`, the request that the arguments of the command line
-- stand for. A command is the list of its words, which the source writes with a blank between two.
pub mod Arms
pub mod Longer
pub mod Stands
pub mod Understood
mod Tests
use inter_fire.Prelude.{
  ℕ, Bool, true, false, not, ◌||◌, ◌&&◌, Option, none, some, List, [], ◌∷◌, ◌++◌, Text, lit,
  eq_text, ◌==◌, if◌then◌else◌, contains, strip_prefix, starts_with, frame_of,
}
use inter_fire.Proto.{parse_u64, parse_u16, is_scope, is_direction}

abbrev pub Command : Type 0
Command = Option (List Text)

-- `parse().is_ok()`
abbrev pub is_ok : Option ℕ → Bool
is_ok none = false
is_ok (some n) = true

abbrev pub is_empty : Text → Bool
is_empty [] = true
is_empty (c ∷ s) = false

-- The loop of `parse_traffic_command`: the last scope and the last direction
abbrev pub traffic_options : List Text → Text → Text → Option (Text × Text)
traffic_options [] scope direction = some (scope, direction)
traffic_options (argument ∷ rest) scope direction = elim (strip_prefix (lit "--scope=") argument) [
  | some value ↦ traffic_options rest value direction
  | none ↦ elim (strip_prefix (lit "--direction=") argument) [
    | some value ↦ traffic_options rest scope value
    | none ↦ none
  ]
]

abbrev pub traffic_words : Text → Option (Text × Text) → Command
traffic_words action none = none
traffic_words action (some (scope, direction)) =
    if not (is_scope scope)
    then none
    else if action == lit "block" && is_direction direction
    then some (lit "traffic-block" ∷ (lit "scope=" ++ scope) ∷ (lit "direction=" ++ direction) ∷ [])
    else if action == lit "unblock"
    then some (lit "traffic-unblock" ∷ (lit "scope=" ++ scope) ∷ [])
    else none

-- `parse_traffic_command`
unfoldable pub parse_traffic_command : Text → List Text → Command
parse_traffic_command action rest =
    traffic_words action (traffic_options rest (lit "user") (lit "out"))

-- The arms for one argument to six, behind the one for traffic
abbrev pub plain_commands : List Text
plain_commands = lit "ping" ∷ lit "status" ∷ lit "pause" ∷ lit "resume" ∷ []

abbrev pub one : Text → Command
one command = if contains command plain_commands then some (command ∷ []) else none

abbrev pub two : Text → Text → Command
two a b =
    if a == lit "rules" && b == lit "list"
    then some (lit "rule-list" ∷ [])
    else if a == lit "prompts" && b == lit "list"
    then some (lit "prompt-list" ∷ [])
    else if a == lit "dns" && b == lit "list"
    then some (lit "dns-list" ∷ [])
    else if a == lit "audit" && b == lit "tail"
    then some (lit "audit-tail" ∷ [])
    else if a == lit "network" && b == lit "status"
    then some (lit "network-status" ∷ [])
    else if a == lit "network" && b == lit "install"
    then some (lit "network-install" ∷ [])
    else if a == lit "network" && b == lit "remove"
    then some (lit "network-remove" ∷ [])
    else none

abbrev pub three : Text → Text → Text → Command
three a b c =
    if a == lit "rules" && (b == lit "delete" && is_ok (parse_u64 c))
    then some (lit "rule-delete" ∷ c ∷ [])
    else if a == lit "audit" && (b == lit "tail" && is_ok (parse_u64 c))
    then some (lit "audit-tail" ∷ c ∷ [])
    else if a == lit "audit" && (b == lit "subscribe" && not (is_empty c))
    then some (lit "audit-subscribe" ∷ c ∷ [])
    else none

abbrev pub four : Text → Text → Text → Text → Command
four a b c d =
    if a == lit "dns" && (b == lit "note" && not (is_empty c))
    then some (lit "dns-note" ∷ c ∷ d ∷ [])
    else if a == lit "audit"
        && (b == lit "subscribe" && (not (is_empty c) && starts_with (lit "since=") d))
    then some (lit "audit-subscribe" ∷ c ∷ d ∷ [])
    else none

abbrev pub is_answer : Text → Bool
is_answer verdict = verdict == lit "allow" || verdict == lit "deny"

abbrev pub is_answer_scope : Text → Bool
is_answer_scope scope = scope == lit "once" || (scope == lit "session" || scope == lit "permanent")

abbrev pub five : Text → Text → Text → Text → Text → Command
five a b c d e =
    if a == lit "prompts"
      && (b == lit "answer" && (is_ok (parse_u64 c) && (is_answer d && is_answer_scope e)))
    then some (lit "prompt-answer" ∷ c ∷ d ∷ e ∷ [])
    else if a == lit "dns" && (b == lit "note" && (not (is_empty c) && is_ok (parse_u64 e)))
    then some (lit "dns-note" ∷ c ∷ d ∷ e ∷ [])
    else none

abbrev pub six : Text → Text → Text → Text → Text → Text → Command
six a b c d e f =
    if a == lit "rules" && (b == lit "add" && (is_ok (parse_u64 c) && is_ok (parse_u16 f)))
    then some (lit "rule-add" ∷ c ∷ d ∷ e ∷ f ∷ [])
    else none

abbrev pub untraffic : Text → Text → List Text → Command
untraffic a b [] = two a b
untraffic a b (c ∷ []) = three a b c
untraffic a b (c ∷ d ∷ []) = four a b c d
untraffic a b (c ∷ d ∷ e ∷ []) = five a b c d e
untraffic a b (c ∷ d ∷ e ∷ f ∷ []) = six a b c d e f
untraffic a b _ = none

abbrev pub is_nil : List Text → Bool
is_nil [] = true
is_nil _ = false

-- `parse_command`
unfoldable pub parse_command : List Text → Command
unfolding parse_traffic_command
parse_command [] = some (lit "status" ∷ [])
parse_command (a ∷ []) = one a
parse_command (a ∷ b ∷ rest) =
    if a == lit "traffic" && (b == lit "status" && is_nil rest)
    then some (lit "status" ∷ [])
    else if a == lit "traffic"
    then parse_traffic_command b rest
    else untraffic a b rest

-- The frame that `main` writes
abbrev pub command_frame : List Text → Text
command_frame words = frame_of (lit "v1" ∷ words)
