-- ===== src/Proto/Rows.antt =====
-- crates/interfire-proto/src/lib.rs: the rows of the lists, as the daemon writes and the clients read
-- them.
pub mod Stats
pub mod Processes
use inter_fire.Prelude.{
  ℕ, Bool, Option, none, some, List, [], ◌∷◌, ◌++◌, Text, lit, ltb, splitn, split_on, split_once,
  join, show_nat, trim_end,
}
use inter_fire.Proto.{malformed, parse_u64, parse_u16}
use inter_fire.Proto.Escape.{escape_field, unescape_field}
use inter_fire.Proto.Client.{Result, ok, err, ◌>>=◌, ok_or, parse_u32, parse_list, body_of}

-- `StatsRow`
pub record StatsRow : Type 0 where
  pub key : Text
  pub hits : ℕ
  pub allow : ℕ
  pub deny : ℕ
  pub prompt : ℕ

abbrev pub stats_parts : List Text → Result StatsRow
stats_parts (key ∷ hits ∷ allow ∷ deny ∷ prompt ∷ []) = do
  h ← ok_or (parse_u64 hits)
  a ← ok_or (parse_u64 allow)
  d ← ok_or (parse_u64 deny)
  p ← ok_or (parse_u64 prompt)
  ok (record { key = unescape_field key; hits = h; allow = a; deny = d; prompt = p })
stats_parts _ = err malformed

-- `StatsRow::parse_row`
unfoldable pub parse_stats_row : Text → Result StatsRow
parse_stats_row row = stats_parts (splitn 5 b'|' row)

-- `StatsRow::parse_frame`
unfoldable pub parse_stats : Text → Text → Result (List StatsRow)
parse_stats frame label = parse_list b';' parse_stats_row label frame

abbrev pub stats_columns : StatsRow → List Text
stats_columns row =
    escape_field row.key
    ∷ show_nat row.hits
    ∷ show_nat row.allow
    ∷ show_nat row.deny
    ∷ show_nat row.prompt
    ∷ []

-- `StatsRow::encode_row`
unfoldable pub encode_stats_row : StatsRow → Text
encode_stats_row row = join (lit "|") (stats_columns row)

-- `ProcessRow`
pub record ProcessRow : Type 0 where
  pub pid : ℕ
  pub start_ticks : ℕ
  pub uid : ℕ
  pub executable : Text
  pub cmdline : Text
  pub verdict : Text
  pub ports : Text

abbrev pub process_parts : List Text → Result ProcessRow
process_parts (pid ∷ start_ticks ∷ uid ∷ verdict ∷ ports ∷ executable ∷ cmdline ∷ []) = do
  p ← ok_or (parse_u32 pid)
  t ← ok_or (parse_u64 start_ticks)
  u ← ok_or (parse_u32 uid)
  ok (record {
    pid = p;
    start_ticks = t;
    uid = u;
    executable = unescape_field executable;
    cmdline = unescape_field cmdline;
    verdict = verdict;
    ports = ports;
  })
process_parts _ = err malformed

-- `ProcessRow::parse_row`
unfoldable pub parse_process_row : Text → Result ProcessRow
parse_process_row row = process_parts (splitn 7 b'|' row)

-- `ProcessRow::parse_frame`
unfoldable pub parse_processes : Text → Result (List ProcessRow)
parse_processes frame = parse_list b';' parse_process_row (lit "processes") frame

abbrev pub process_columns : ProcessRow → List Text
process_columns row =
    show_nat row.pid
    ∷ show_nat row.start_ticks
    ∷ show_nat row.uid
    ∷ row.verdict
    ∷ row.ports
    ∷ escape_field row.executable
    ∷ escape_field row.cmdline
    ∷ []

-- `ProcessRow::encode_row`
unfoldable pub encode_process_row : ProcessRow → Text
encode_process_row row = join (lit "|") (process_columns row)

-- `RuleRow`
pub record RuleRow : Type 0 where
  pub id : ℕ
  pub executable : Text
  pub verdict : Text
  pub port : ℕ

abbrev pub rule_parts : List Text → Result RuleRow
rule_parts (id ∷ executable ∷ verdict ∷ port ∷ []) = do
  i ← ok_or (parse_u64 id)
  p ← ok_or (parse_u16 port)
  ok (record { id = i; executable = executable; verdict = verdict; port = p })
rule_parts _ = err malformed

-- `RuleRow::parse_row`
unfoldable pub parse_rule_row : Text → Result RuleRow
parse_rule_row row = rule_parts (splitn 4 b'|' row)

-- `RuleRow::parse_frame`
unfoldable pub parse_rules : Text → Result (List RuleRow)
parse_rules frame = parse_list b',' parse_rule_row (lit "rules") frame

-- `PromptRow`
pub record PromptRow : Type 0 where
  pub id : ℕ
  pub executable : Text
  pub destination : Text
  pub port : ℕ
  pub protocol : Text
  pub remaining_secs : ℕ

abbrev pub protocol_of : List Text → Text
protocol_of [] = lit "tcp"
protocol_of (protocol ∷ _) = protocol

abbrev pub or_zero : Option ℕ → ℕ
or_zero none = 0
or_zero (some n) = n

abbrev pub remaining_of : List Text → ℕ
remaining_of (_ ∷ remaining ∷ _) = or_zero (parse_u64 remaining)
remaining_of _ = 0

abbrev pub prompt_parts : List Text → Result PromptRow
prompt_parts (id ∷ executable ∷ destination ∷ port ∷ rest) = do
  i ← ok_or (parse_u64 id)
  p ← ok_or (parse_u16 port)
  ok (record {
    id = i;
    executable = executable;
    destination = destination;
    port = p;
    protocol = protocol_of rest;
    remaining_secs = remaining_of rest;
  })
prompt_parts _ = err malformed

-- `PromptRow::parse_row`
unfoldable pub parse_prompt_row : Text → Result PromptRow
parse_prompt_row row = prompt_parts (split_on b'|' row)

-- `PromptRow::parse_frame`
unfoldable pub parse_prompts : Text → Result (List PromptRow)
parse_prompts frame = parse_list b',' parse_prompt_row (lit "prompts") frame

-- `PromptRow::can_answer`
abbrev pub can_answer : PromptRow → Bool
can_answer row = ltb 0 row.remaining_secs

-- `AuditStreamRecord`
pub record AuditStreamRecord : Type 0 where
  pub sequence : ℕ
  pub message : Text

abbrev pub stream_record : List Text → Result AuditStreamRecord
stream_record [] = err malformed
stream_record (payload ∷ _) = do
  (sequence, message) ← ok_or (split_once b'|' payload)
  n ← ok_or (parse_u64 sequence)
  ok (record { sequence = n; message = message })

-- `AuditStreamRecord::parse`
unfoldable pub parse_stream_record : Text → Result AuditStreamRecord
parse_stream_record frame = body_of (lit "audit") (splitn 3 b' ' (trim_end frame)) >>= stream_record
