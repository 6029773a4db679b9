-- ===== src/Tui/Session/Streamed.antt =====
-- The log, from the daemon's table to the client.
use inter_fire.Prelude.{
  ℕ, zero, suc, ◌-◌, ◌^◌, ◌≤◌, ◌<◌, none_satisfies, ◌≡◌, ◌∙◌, refl, ap, Bool, false, List, [], ◌∷◌,
  ◌++◌, append_assoc, map, length, Text, lit, eq_text, text_eq, ltb, starts_with, show_nat,
  show_nat-IsFree, show_nat-IsLine, parse_uint-show_nat, join, splitn, splitn-join,
  split_once-append, trim_end-IsLine, read_lines, read_lines-append, All, All-append, IsLine,
  is_eol, inr, arith,
}
use inter_fire.Audit.{BoundedLogRecord, byte_length, logged}
use inter_fire.Audit.Stream.{
  audit_words, encode_audit_frame, frames, run_subscriber, run_subscriber-frames,
}
use inter_fire.Proto.Client.{ok, ok_or, ◌>>=◌, body_of}
use inter_fire.Proto.Client.Lists.{frame_of-join, join-All}
use inter_fire.Proto.Response.{Response, encode}
use inter_fire.Proto.Rows.{AuditStreamRecord, stream_record, parse_stream_record}
use inter_fire.Proto.{parse_u64}
use inter_fire.Tui.App.{IpcEvent, subscription_ready}
use inter_fire.Tui.Requests.{Reply, max_frame_bytes}
use inter_fire.Tui.Session.{
  emit, Line, too_large, replaced, malformed_audit, subscribed, entry, entry_of, classify,
  subscribe_session, audit_subscriber_id,
}

-- The line of a record
abbrev pub audit_line : BoundedLogRecord → Text
audit_line r = join (lit " ") (audit_words r)

-- What the client makes of a record
abbrev pub streamed : BoundedLogRecord → AuditStreamRecord
streamed r = record { sequence = r.sequence; message = r.message }

-- A record that a line can carry
pub record IsStreamed (r : BoundedLogRecord) : Type 0 where
  pub sequence : r.sequence ≤ 2 ^ 64 - 1
  pub line : IsLine r.message
  pub size : byte_length (audit_line r) ≤ 8192

words-IsLine : (r : BoundedLogRecord) → IsLine r.message → All IsLine (audit_words r)
words-IsLine r h = (
  (refl, (refl, tt)),
  (
    (refl, (refl, (refl, (refl, (refl, tt))))),
    (
      All-append (λ c. is_eol c ≡ false) (show_nat r.sequence) (lit "|" ++ r.message)
          (show_nat-IsLine r.sequence) (refl, h),
      tt,
    ),
  ),
)

audit_line-IsLine : (r : BoundedLogRecord) → IsLine r.message → IsLine (audit_line r)
audit_line-IsLine r h = join-All (λ c. is_eol c ≡ false) 32 (audit_words r) refl (words-IsLine r h)

parse-audit_line :
    (r : BoundedLogRecord) → IsStreamed r → parse_stream_record (audit_line r) ≡ ok (streamed r)
unfolding parse_stream_record text_eq
parse-audit_line r v =
    ap (λ t. body_of (lit "audit") (splitn 3 32 t) >>= stream_record)
      (trim_end-IsLine (audit_line r) (audit_line-IsLine r v.line))
    ∙ ap (λ t. body_of (lit "audit") t >>= stream_record)
        (splitn-join 32 (audit_words r)
          ((refl, (refl, tt)), ((refl, (refl, (refl, (refl, (refl, tt))))), tt)) (λ e. cc))
    ∙ (λ i. do
      (sequence, message) ← ok_or (
          split_once-append b'|' (show_nat r.sequence) r.message
            (show_nat-IsFree b'|' r.sequence (inr (omega arith))) i)
      n ← ok_or (parse_u64 sequence)
      ok (record { sequence = n; message = message }))
    ∙ (λ i. do
      n ← ok_or (parse_uint-show_nat (2 ^ 64 - 1) r.sequence v.sequence i)
      ok (record { sequence = n; message = r.message }))

classify-audit_line :
    (r : BoundedLogRecord) → IsStreamed r → classify (audit_line r) ≡ entry (streamed r)
unfolding classify starts_with text_eq join
classify-audit_line r v =
    let short : ltb max_frame_bytes (byte_length (audit_line r)) ≡ false = ground (arith, v.size) in
    rw short (ap entry_of (parse-audit_line r v))

-- The number of the last record, or the one that was there before
abbrev pub last_of : ℕ → List BoundedLogRecord → ℕ
last_of last [] = last
last_of last (r ∷ records) = last_of r.sequence records

read_lines-frames :
    (records : List BoundedLogRecord)
    → All IsStreamed records
    → read_lines (frames records) ≡ map audit_line records
unfolding encode_audit_frame read_lines
read_lines-frames [] v = refl
read_lines-frames (r ∷ records) v =
    ap (λ t. read_lines (t ++ frames records)) (frame_of-join (audit_words r))
    ∙ ap read_lines (append_assoc (audit_line r) (10 ∷ []) (frames records))
    ∙ read_lines-append (audit_line r) (frames records) (audit_line-IsLine r v.0.line)
    ∙ ap (λ lines. audit_line r ∷ lines) (read_lines-frames records v.1)

session-records :
    (sends last : ℕ) (records : List BoundedLogRecord)
    → length records ≤ sends
    → All IsStreamed records
    → subscribe_session sends last (map Reply.ok (map audit_line records))
      ≡ (map (λ r. IpcEvent.audit (streamed r)) records, Reply.ok (last_of last records))
unfolding subscribe_session
session-records sends last [] h v = refl
session-records zero last (r ∷ records) h v = absurd (omega arith)
session-records (suc sends) last (r ∷ records) h v =
    let lines = map Reply.ok (map audit_line records) in
    ap
      (λ (line : Line). elim line [
        | too_large ↦ ([], Reply.err (lit "frame_too_large"))
        | subscribed ↦ emit subscription_ready (subscribe_session sends last lines)
        | replaced ↦ subscribe_session (suc sends) last lines
        | malformed_audit ↦ ([], Reply.err (lit "malformed_audit"))
        | entry row ↦ emit (IpcEvent.audit row) (subscribe_session sends row.sequence lines)
      ])
      (classify-audit_line r v.0)
    ∙ ap (emit (IpcEvent.audit (streamed r)))
        (session-records sends r.sequence records (omega arith) v.1)

-- The log reaches the client: from what the daemon writes to a subscriber, the answer and then the frames of the backlog and of the records that are logged while the session lasts, the client gets the event that it is subscribed and one event for each record, in their order, and the session ends with the number of the last one, if the records fit a line of 8192 bytes, every write succeeds and the client takes every event.
pub session-run_subscriber :
    (writes sends since : ℕ) (backlog live : List BoundedLogRecord)
    → length (backlog ++ live) ≤ writes
    → length (backlog ++ live) < sends
    → All IsStreamed (backlog ++ live)
    → subscribe_session sends since (
        map Reply.ok (
          read_lines (
            encode (Response.subscribed audit_subscriber_id)
            ++ (run_subscriber writes (map logged live) backlog).0)))
      ≡ (
        subscription_ready ∷ map (λ r. IpcEvent.audit (streamed r)) (backlog ++ live),
        Reply.ok (last_of since (backlog ++ live)),
      )
unfolding subscribe_session encode classify starts_with
session-run_subscriber writes zero since backlog live w h v = absurd (omega arith)
session-run_subscriber writes (suc sends) since backlog live w h v =
    ap
      (λ (stream : Text × Bool).
        subscribe_session (suc sends) since (
          map Reply.ok (read_lines (encode (Response.subscribed audit_subscriber_id) ++ stream.0))))
      (run_subscriber-frames writes backlog live w)
    ∙ ap (λ lines. subscribe_session (suc sends) since (map Reply.ok lines))
        (read_lines-append (lit "v1 subscribed interfire-tui") (frames (backlog ++ live))
            (none_satisfies is_eol (lit "v1 subscribed interfire-tui") refl)
          ∙ ap (λ lines. lit "v1 subscribed interfire-tui" ∷ lines)
              (read_lines-frames (backlog ++ live) v))
    ∙ ap (emit subscription_ready) (session-records sends since (backlog ++ live) (omega arith) v)
