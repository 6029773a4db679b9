-- ===== src/Proto.antt =====
-- crates/interfire-proto/src/lib.rs: the control frames of the clients (`Request::parse`).
pub mod Frames
pub mod Escape
pub mod Client
pub mod Rows
pub mod Status
pub mod Response
mod Tests
use inter_fire.Prelude.{
  ℕ, ◌-◌, ◌^◌, ◌≡◌, Bool, true, false, ◌||◌, ◌&&◌, Option, none, some, List, [], ◌∷◌, ◌++◌, Text,
  lit, eq_text, ◌==◌, if◌then◌else◌, split_whitespace, strip_prefix, parse_uint,
}

pub data Request : Type 0 where
  ping status rule_list prompt_list dns_list process_list network_status network_install
        network_remove :
      Request
  pause resume stats_summary stats_hosts stats_procs stats_addrs stats_ports stats_users : Request
  rule_add : (id : ℕ) → (executable : Text) → (verdict : Text) → (port : ℕ) → Request
  rule_delete : (id : ℕ) → Request
  prompt_answer : (id : ℕ) → (verdict : Text) → (scope : Text) → Request
  dns_note : (hostname : Text) → (ipv4 : Text) → (ttl_secs : Option ℕ) → Request
  audit_tail : (limit : ℕ) → Request
  audit_subscribe : (id : Text) → (since : ℕ) → Request
  traffic_block : (scope : Text) → (direction : Text) → Request
  traffic_unblock : (scope : Text) → Request

pub data ProtocolError : Type 0 where
  malformed unsupported_version : ProtocolError

pub data Parsed : Type 0 where
  ok : Request → Parsed
  err : ProtocolError → Parsed

-- `value.parse()` into a `u64`, which is also `usize`, and into a `u16`
abbrev pub parse_u64 : Text → Option ℕ
parse_u64 = parse_uint (2 ^ 64 - 1)

abbrev pub parse_u16 : Text → Option ℕ
parse_u16 = parse_uint (2 ^ 16 - 1)

-- A request of a number that must be there, and of two
abbrev pub with_number : Option ℕ → (ℕ → Request) → Parsed
with_number none request = err malformed
with_number (some n) request = ok (request n)

abbrev pub with_numbers : Option ℕ → Option ℕ → (ℕ → ℕ → Request) → Parsed
with_numbers (some m) (some n) request = ok (request m n)
with_numbers _ _ request = err malformed

-- The loop of `parse_traffic_block`: the last scope and the last direction, none at an unknown field
abbrev pub traffic_fields :
    List Text → Option Text → Option Text → Option (Option Text × Option Text)
traffic_fields [] scope direction = some (scope, direction)
traffic_fields (field ∷ fields) scope direction = elim (strip_prefix (lit "scope=") field) [
  | some value ↦ traffic_fields fields (some value) direction
  | none ↦ elim (strip_prefix (lit "direction=") field) [
    | some value ↦ traffic_fields fields scope (some value)
    | none ↦ none
  ]
]

abbrev pub is_scope : Text → Bool
is_scope scope = (scope == lit "user") || (scope == lit "machine")

abbrev pub is_direction : Text → Bool
is_direction direction =
    (direction == lit "out") || ((direction == lit "in") || (direction == lit "all"))

abbrev pub block_of : Option (Option Text × Option Text) → Parsed
block_of (some (some scope, some direction)) =
    if is_scope scope && is_direction direction
    then ok (traffic_block scope direction)
    else err malformed
block_of _ = err malformed

-- `parse_traffic_block`
unfoldable pub parse_traffic_block : List Text → Parsed
parse_traffic_block fields = block_of (traffic_fields fields none none)

-- The loop of `parse_traffic_unblock`
abbrev pub scope_fields : List Text → Option Text → Option (Option Text)
scope_fields [] scope = some scope
scope_fields (field ∷ fields) scope = elim (strip_prefix (lit "scope=") field) [
  | some value ↦ scope_fields fields (some value)
  | none ↦ none
]

abbrev pub unblock_of : Option (Option Text) → Parsed
unblock_of (some (some scope)) =
    if is_scope scope then ok (traffic_unblock scope) else err malformed
unblock_of _ = err malformed

-- `parse_traffic_unblock`
unfoldable pub parse_traffic_unblock : List Text → Parsed
parse_traffic_unblock fields = unblock_of (scope_fields fields none)

-- `parse_rule_delete`
unfoldable pub parse_rule_delete : List Text → Parsed
parse_rule_delete (id ∷ []) = with_number (parse_u64 id) rule_delete
parse_rule_delete _ = err malformed

-- `parse_rule_add`
unfoldable pub parse_rule_add : List Text → Parsed
parse_rule_add (id ∷ executable ∷ verdict ∷ port ∷ []) =
    with_numbers (parse_u64 id) (parse_u16 port) (λ i p. rule_add i executable verdict p)
parse_rule_add _ = err malformed

-- `parse_prompt_answer`
unfoldable pub parse_prompt_answer : List Text → Parsed
parse_prompt_answer (id ∷ verdict ∷ scope ∷ []) =
    with_number (parse_u64 id) (λ i. prompt_answer i verdict scope)
parse_prompt_answer _ = err malformed

-- `parse_dns_note`
unfoldable pub parse_dns_note : List Text → Parsed
parse_dns_note (hostname ∷ ipv4 ∷ []) = ok (dns_note hostname ipv4 none)
parse_dns_note (hostname ∷ ipv4 ∷ ttl ∷ []) =
    with_number (parse_u64 ttl) (λ n. dns_note hostname ipv4 (some n))
parse_dns_note _ = err malformed

-- `parse_audit_tail`, with `MAX_LOG_RECORDS_PER_SUBSCRIBER`
unfoldable pub parse_audit_tail : List Text → Parsed
parse_audit_tail [] = ok (audit_tail 2000)
parse_audit_tail (limit ∷ []) = with_number (parse_u64 limit) audit_tail
parse_audit_tail _ = err malformed

abbrev pub since_of : Option Text → Option ℕ
since_of none = none
since_of (some value) = parse_u64 value

-- `parse_audit_subscribe`
unfoldable pub parse_audit_subscribe : List Text → Parsed
parse_audit_subscribe (id ∷ []) = ok (audit_subscribe id 0)
parse_audit_subscribe (id ∷ since ∷ []) =
    with_number (since_of (strip_prefix (lit "since=") since)) (λ n. audit_subscribe id n)
parse_audit_subscribe _ = err malformed

-- The commands that take no field
abbrev pub plain_requests : List (Text × Request)
plain_requests =
    (lit "ping", ping)
    ∷ (lit "status", status)
    ∷ (lit "rule-list", rule_list)
    ∷ (lit "prompt-list", prompt_list)
    ∷ (lit "dns-list", dns_list)
    ∷ (lit "process-list", process_list)
    ∷ (lit "network-status", network_status)
    ∷ (lit "network-install", network_install)
    ∷ (lit "network-remove", network_remove)
    ∷ (lit "pause", pause)
    ∷ (lit "resume", resume)
    ∷ (lit "stats-summary", stats_summary)
    ∷ (lit "stats-hosts", stats_hosts)
    ∷ (lit "stats-procs", stats_procs)
    ∷ (lit "stats-addrs", stats_addrs)
    ∷ (lit "stats-ports", stats_ports)
    ∷ (lit "stats-users", stats_users)
    ∷ []

-- The arms of the match that have a guard, in the order of the list
abbrev pub parse_plain : List (Text × Request) → Text → Parsed
parse_plain [] command = err malformed
parse_plain ((name, request) ∷ requests) command =
    let rest = parse_plain requests command in if command == name then ok request else rest

-- The match over the command. A command without fields that has some falls to the last arm.
unfoldable pub parse_command : Text → List Text → Parsed
unfolding parse_traffic_block parse_traffic_unblock parse_rule_delete parse_rule_add
    parse_prompt_answer parse_dns_note parse_audit_tail parse_audit_subscribe
parse_command command fields =
    if command == lit "rule-delete"
    then parse_rule_delete fields
    else if command == lit "rule-add"
    then parse_rule_add fields
    else if command == lit "prompt-answer"
    then parse_prompt_answer fields
    else if command == lit "dns-note"
    then parse_dns_note fields
    else if command == lit "audit-tail"
    then parse_audit_tail fields
    else if command == lit "audit-subscribe"
    then parse_audit_subscribe fields
    else if command == lit "traffic-block"
    then parse_traffic_block fields
    else if command == lit "traffic-unblock"
    then parse_traffic_unblock fields
    else (elim fields [ [] ↦ parse_plain plain_requests command | _ ∷ _ ↦ err malformed ])

-- `Request::parse`, over the fields of the frame
unfoldable pub parse_words : List Text → Parsed
unfolding parse_command
parse_words [] = err malformed
parse_words (version ∷ []) = if version == lit "v1" then err malformed else err unsupported_version
parse_words (version ∷ command ∷ fields) =
    if version == lit "v1" then parse_command command fields else err unsupported_version

-- `Request::parse`
unfoldable pub parse : Text → Parsed
unfolding parse_words
parse frame = parse_words (split_whitespace frame)
