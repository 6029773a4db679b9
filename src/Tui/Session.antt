-- ===== src/Tui/Session.antt =====
-- crates/interfire-tui/src/ipc.rs: `subscribe_session`, the client's side of the log's stream.
pub mod Streamed
pub mod Resumed
use inter_fire.Prelude.{
  ℕ, zero, suc, ◌+◌, ◌-◌, ◌^◌, ◌≤◌, ◌≡◌, ◌∙◌, refl, ap, sym, Bool, true, false, List, [], ◌∷◌, ◌++◌,
  append_assoc, map, length, Text, lit, eq_text, ◌==◌, text_eq, if◌then◌else◌, ltb, starts_with,
  show_nat, show_nat-IsFree, show_nat-IsLine, parse_uint-show_nat, frame_of, join, splitn-join,
  split_once-append, trim_end-IsLine, read_lines, read_lines-append, All, All-append, IsLine,
  IsFree, is_eol, inl, inr, arith,
}
use inter_fire.Audit.{BoundedLogRecord, byte_length, logged}
use inter_fire.Audit.Stream.{
  audit_text, audit_words, encode_audit_frame, frames, run_subscriber, run_subscriber-frames,
}
use inter_fire.Proto.Client.{Result, ok, ok_or, ◌>>=◌, body_of}
use inter_fire.Proto.Client.Lists.{frame_of-join, join-All}
use inter_fire.Proto.Response.{Response, encode}
use inter_fire.Proto.Rows.{AuditStreamRecord, stream_record, parse_stream_record}
use inter_fire.Tui.App.{IpcEvent, subscription_ready}
use inter_fire.Tui.Requests.{Reply, max_frame_bytes}

-- What a session sends to the client, and the number that it ends with
abbrev pub Session : Type 0
Session = List IpcEvent × Reply ℕ

abbrev pub emit : IpcEvent → Session → Session
emit event (events, end) = (event ∷ events, end)

-- What a line of the stream is
pub data Line : Type 0 where
  too_large subscribed replaced malformed_audit : Line
  entry : AuditStreamRecord → Line

abbrev pub entry_of : Result AuditStreamRecord → Line
entry_of (Result.ok r) = entry r
entry_of (Result.err e) = malformed_audit

unfoldable pub classify : Text → Line
classify line =
    if ltb max_frame_bytes (byte_length line)
    then too_large
    else if starts_with (lit "v1 subscribed ") line
    then subscribed
    else if line == lit "v1 audit-replaced"
    then replaced
    else entry_of (parse_stream_record line)

-- The loop over the lines, to the end of the stream or an error of a read; `sends` is how many events
-- the client takes before its channel is closed.
unfoldable pub subscribe_session : ℕ → ℕ → List (Reply Text) → Session
unfolding classify
subscribe_session sends last [] = ([], Reply.ok last)
subscribe_session sends last (Reply.err message ∷ lines) = ([], Reply.err message)
subscribe_session zero last (Reply.ok line ∷ lines) = elim (classify line) [
  | too_large ↦ ([], Reply.err (lit "frame_too_large"))
  | subscribed ↦ ([], Reply.ok last)
  | replaced ↦ subscribe_session zero last lines
  | malformed_audit ↦ ([], Reply.err (lit "malformed_audit"))
  | entry r ↦ ([], Reply.ok r.sequence)
]
subscribe_session (suc sends) last (Reply.ok line ∷ lines) = elim (classify line) [
  | too_large ↦ ([], Reply.err (lit "frame_too_large"))
  | subscribed ↦ emit subscription_ready (subscribe_session sends last lines)
  | replaced ↦ subscribe_session (suc sends) last lines
  | malformed_audit ↦ ([], Reply.err (lit "malformed_audit"))
  | entry r ↦ emit (IpcEvent.audit r) (subscribe_session sends r.sequence lines)
]

-- `AUDIT_SUBSCRIBER_ID`
abbrev pub audit_subscriber_id : Text
audit_subscriber_id = lit "interfire-tui"

-- The number that the next session starts from, as `audit_loop` keeps it
abbrev pub next_since : ℕ → Reply ℕ → ℕ
next_since since (Reply.ok last) = last
next_since since (Reply.err message) = since
