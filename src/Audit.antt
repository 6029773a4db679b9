-- ===== src/Audit.antt =====
-- crates/interfire-daemon/src/audit.rs: the audit log in memory, its file, and its subscribers.
pub mod Bounds
pub mod Format
pub mod Stream
mod Tests
use inter_fire.Prelude.{
  ℕ, zero, suc, ◌+◌, ◌-◌, ◌^◌, ◌≡◌, Bool, true, false, ◌&&◌, Option, none, some, List, [], ◌∷◌,
  ◌++◌, map, reverse, min, max, Text, lit, show_nat, parse_uint, if◌then◌else◌, ltb, leb, nat_eq,
  length, take, filter, Map, get, insert, remove, eq_text,
}

pub record BoundedLogRecord : Type 0 where
  pub sequence : ℕ
  pub message : Text

-- `Fanout`
pub data Fanout : Type 0 where
  logged : BoundedLogRecord → Fanout
  replaced : Fanout

-- The sending end of a channel: what waits in it, and whether the receiver is still there
pub record Channel : Type 0 where
  pub waiting : List Fanout
  pub connected : Bool

pub record AuditLog : Type 0 where
  pub max_bytes : ℕ
  pub max_records : ℕ
  pub next_seq : ℕ
  pub records : List BoundedLogRecord
  pub subscribers : Map Text Channel
  -- The file at `path`
  pub file : Text

-- The bytes of a character in UTF-8, and of a text
abbrev pub utf8_size : ℕ → ℕ
utf8_size c = if ltb c 128 then 1 else if ltb c 2048 then 2 else if ltb c 65536 then 3 else 4

abbrev pub byte_length : Text → ℕ
byte_length [] = 0
byte_length (c ∷ s) = utf8_size c + byte_length s

-- `message.replace('\n', " ")`
abbrev pub one_line : Text → Text
one_line = map (λ c. if nat_eq c 10 then 32 else c)

-- `format_record`
unfoldable pub format_record : BoundedLogRecord → Text
format_record record' = show_nat record'.sequence ++ (9 ∷ (one_line record'.message ++ 10 ∷ []))

-- `split_once` at a tab
abbrev pub split_tab : Text → Option (Text × Text)
split_tab [] = none
split_tab (c ∷ s) =
    let rest = split_tab s in
    if nat_eq c 9 then some ([], s) else elim rest [ none ↦ none | some (a, b) ↦ some (c ∷ a, b) ]

abbrev pub record_of : Option ℕ → Text → Option BoundedLogRecord
record_of none message = none
record_of (some sequence) message = some (record { sequence = sequence; message = message })

abbrev pub parse_fields : Option (Text × Text) → Option BoundedLogRecord
parse_fields none = none
parse_fields (some (sequence, message)) = record_of (parse_uint (2 ^ 64 - 1) sequence) message

-- `parse_record`
unfoldable pub parse_record : Text → Option BoundedLogRecord
parse_record line = parse_fields (split_tab line)

-- The concatenated lines of the records
abbrev pub encode : List BoundedLogRecord → Text
encode [] = []
encode (r ∷ records) = format_record r ++ encode records

-- The sum of `trim_to_disk_budget`
abbrev pub encoded_size : List BoundedLogRecord → ℕ
encoded_size [] = 0
encoded_size (r ∷ records) = byte_length (format_record r) + encoded_size records

-- `trim_to_disk_budget`
unfoldable pub trim_to : ℕ → List BoundedLogRecord → List BoundedLogRecord
trim_to max_bytes [] = []
trim_to max_bytes (r ∷ records) =
    let rest = trim_to max_bytes records in
    if leb (encoded_size (r ∷ records)) max_bytes then r ∷ records else rest

-- `pop_front` at the cap, and `push_back`
unfoldable pub push_record : ℕ → BoundedLogRecord → List BoundedLogRecord → List BoundedLogRecord
push_record max_records r [] = r ∷ []
push_record max_records r (oldest ∷ records) =
    if nat_eq (length (oldest ∷ records)) max_records
    then records ++ r ∷ []
    else oldest ∷ records ++ r ∷ []

-- What a write of the file comes to: done, or a failure that leaves some file.
pub data Written : Type 0 where
  done : Written
  failed : Text → Written

abbrev pub after : Written → Text → Text
after done file = file
after (failed left) file = left

-- `persist_record`, with `rewrite_disk_from_memory`
unfoldable pub persist_record : Written → BoundedLogRecord → AuditLog → AuditLog
persist_record written r log =
    let trimmed = trim_to log.max_bytes log.records in
    if ltb log.max_bytes (byte_length log.file + byte_length (format_record r))
    then record log { records = trimmed; file = after written (encode trimmed) }
    else record log { file = after written (log.file ++ format_record r) }

-- `try_send` to a channel of 256 places
abbrev pub try_send : Fanout → Channel → Option Channel
try_send event channel =
    if channel.connected && ltb (length channel.waiting) 256
    then some (record channel { waiting = channel.waiting ++ event ∷ [] })
    else none

-- `fanout`: the subscribers that cannot take the event are dropped.
unfoldable pub fanout : Fanout → Map Text Channel → Map Text Channel
fanout event [] = []
fanout event ((id, channel) ∷ subscribers) =
    let rest = fanout event subscribers in
    elim (try_send event channel) [ none ↦ rest | some sent ↦ (id, sent) ∷ rest ]

-- The log with the new record in memory
abbrev pub remember : BoundedLogRecord → AuditLog → AuditLog
remember r log = record log {
  next_seq = min (log.next_seq + 1) (2 ^ 64 - 1);
  records = push_record log.max_records r log.records;
}

-- `append`; a failed write is only logged.
unfoldable pub append : Written → Text → AuditLog → AuditLog
append written message log =
    let r : BoundedLogRecord = record { sequence = log.next_seq; message = message } in
    let log' = persist_record written r (remember r log) in
    record log' { subscribers = fanout (logged r) log'.subscribers }

-- `tail`: the newest records, oldest first.
unfoldable pub tail : ℕ → AuditLog → List BoundedLogRecord
tail limit log = reverse (take (min limit (length log.records)) (reverse log.records))

-- `since`
unfoldable pub since : ℕ → AuditLog → List BoundedLogRecord
since sequence log = filter (λ r. ltb sequence r.sequence) log.records

abbrev no_channel : Channel
no_channel = record { waiting = []; connected = true }

-- The last event of a replaced channel; a full one loses it.
abbrev pub tell_replaced : Option Channel → Option Channel
tell_replaced none = none
tell_replaced (some channel) = elim (try_send replaced channel) [
  | none ↦ some channel
  | some sent ↦ some sent
]

-- `subscribe`: the channel that was replaced, with its last event, and the log
unfoldable pub subscribe : Text → AuditLog → Option Channel × AuditLog
subscribe id log = (
  tell_replaced (get id log.subscribers),
  record log { subscribers = insert id no_channel log.subscribers },
)

-- `remove_subscriber`
unfoldable pub remove_subscriber : Text → AuditLog → AuditLog
remove_subscriber id log = record log { subscribers = remove id log.subscribers }

-- `load_from_disk`, over the lines of the file
unfoldable pub load_lines : List Text → AuditLog → AuditLog
load_lines [] log = log
load_lines (line ∷ lines) log = elim (parse_record line) [
  | none ↦ load_lines lines log
  | some r ↦ load_lines lines (record log {
    next_seq = max log.next_seq (min (r.sequence + 1) (2 ^ 64 - 1));
    records = push_record log.max_records r log.records;
  })
]
