-- ===== src/Tui/Tests.antt =====
-- Runs of the client: a question that is answered, a log under a filter, and a new rule.
use inter_fire.Prelude.{
  ◌++◌, map, join, show_nat, is_eol, none_satisfies, read_lines, All, ◌≡◌, ◌<◌, ◌≤◌, refl, [], ◌∷◌,
  lit, arith, length, Text, get_elem?, max, has_infix, In, starts_with, text_eq,
}
use inter_fire.Proto
use inter_fire.Proto.{parse}
use inter_fire.Proto.Rows.{PromptRow}
use inter_fire.Tui.{
  Tab, enter, char, IpcCommand, AnswerVerdict, AnswerScope, new_answer_form, answer_command, closed,
  answering, command,
}
use inter_fire.Tui.App.{
  App, IpcEvent, subscription_ready, EventsVerdictFilter, new, apply, clamp_selection,
  filtered_audit,
}
use inter_fire.Tui.Keys.{
  handle_key, handle_overlay_key, handle_root_key, handle_root_char, handle_tab_key,
  open_answer_overlay, set_tab, handle_answer_overlay_key,
}
use inter_fire.Tui.Selection.{IsValid}
use inter_fire.Tui.Reachable.{Reach, start, next, event, key, Reach-IsValid}
use inter_fire.Tui.Commands.{IsSafe, handle_key-IsSafe}
use inter_fire.Tui.Stale.{stale_answer}
use inter_fire.Tui.Requests.{request_frame}
use inter_fire.Tui.Requests.Frames.{request_of, parse-request_frame}
use inter_fire.Audit.{AuditLog, BoundedLogRecord, logged, since}
use inter_fire.Audit.Stream.{run_subscriber}
use inter_fire.Proto.Response.{Response, encode}
use inter_fire.Tui.Requests.{Reply}
use inter_fire.Tui.Session.{next_since, subscribe_session, audit_subscriber_id}
use inter_fire.Tui.Session.Resumed.{session, session-resumed}
use inter_fire.Tui.Session.Streamed.{IsStreamed, streamed, session-run_subscriber}
use inter_fire.Tui.Window.{visible_audit_window, detail_lines}
use inter_fire.Tui.Window.Shown.{visible_audit_window_lem}
use inter_fire.Tui.Window.Unfiltered.{detail_unfiltered}

abbrev question : PromptRow
question = record {
  id = 7;
  executable = lit "/usr/bin/curl";
  destination = lit "1.1.1.1";
  port = 443;
  protocol = lit "tcp";
  remaining_secs = 20;
}

abbrev socket : Text
socket = lit "/run/interfire.sock"

-- The client on the tab of prompts, with one question
abbrev asked : App
asked = apply (IpcEvent.prompts (question ∷ [])) (handle_key (char b'4') (new socket)).1

-- The question is open, and the list has lost it since.
abbrev opened : App
opened = (handle_key enter asked).1

abbrev lost : App
lost = apply (IpcEvent.prompts []) opened

lost_reached : Reach socket lost
lost_reached =
    next
      (next
        (next (next start (key (char b'4') (new socket)))
          (event (IpcEvent.prompts (question ∷ [])) _))
        (key enter asked))
      (event (IpcEvent.prompts []) opened)

Reach-IsValid_example : IsValid lost
Reach-IsValid_example = Reach-IsValid socket lost_reached

still_open : lost.overlay ≡ answering (new_answer_form question)
unfolding apply handle_key handle_overlay_key handle_root_key handle_root_char handle_tab_key
    set_tab open_answer_overlay clamp_selection new
still_open = refl

stale_answer_example :
    handle_key enter lost
    ≡ (command (answer_command (new_answer_form question)), record lost { overlay = closed })
stale_answer_example = stale_answer socket (new_answer_form question) lost_reached still_open

-- The operator allows the question once.
abbrev allowed : App
allowed = (handle_key (char b'a') opened).1

abbrev answer : IpcCommand
answer = IpcCommand.answer_prompt 7 (lit "allow") (lit "once")

allowed_is_sent : (handle_key enter allowed).0 ≡ command answer
unfolding apply handle_key handle_overlay_key handle_root_key handle_root_char handle_tab_key
    set_tab open_answer_overlay clamp_selection new handle_answer_overlay_key answer_command
allowed_is_sent = refl

handle_key-IsSafe_example : IsSafe answer
handle_key-IsSafe_example = handle_key-IsSafe enter allowed answer allowed_is_sent

parse-request_frame_example : parse (request_frame answer) ≡ Proto.ok (request_of answer)
parse-request_frame_example =
    parse-request_frame answer
      (
        (AnswerVerdict.allow, refl, unfold text_eq in refl),
        (AnswerScope.once, refl, unfold text_eq in refl),
      )
      (omega arith)

-- A log of four lines, two of them under the filter
abbrev four_lines : App
four_lines = record (new socket) {
  tab = Tab.events;
  audit =
      lit "9|outcome=deny"
      ∷ lit "10|outcome=allow"
      ∷ lit "11|outcome=deny"
      ∷ lit "12|outcome=allow"
      ∷ [];
  events_filter = EventsVerdictFilter.allow;
}

second_there : 1 < length (filtered_audit four_lines)
unfolding new has_infix starts_with
second_there = omega arith

visible_audit_window_example :
    let v = visible_audit_window 1 (record four_lines { list_selected = 1 }) in
    (get_elem? v.items v.relative_selected ≡ get_elem? (filtered_audit four_lines) 1)
    × (v.relative_selected < length v.items)
    × (length v.items ≤ max 1 1)
visible_audit_window_example =
    visible_audit_window_lem 1 (record four_lines { list_selected = 1 }) second_there

detail_unfiltered_example :
    (detail_lines four_lines ≡ lit "9|outcome=deny" ∷ [])
    × ¬ In (lit "9|outcome=deny") (filtered_audit four_lines)
detail_unfiltered_example =
    detail_unfiltered four_lines (lit "9|outcome=deny")
      (lit "10|outcome=allow" ∷ lit "11|outcome=deny" ∷ lit "12|outcome=allow" ∷ []) refl refl
      (unfold new in refl) (unfold new has_infix starts_with in refl)

-- A log with one record behind and one that comes during the session
abbrev behind : BoundedLogRecord
behind = record { sequence = 11; message = lit "connect outcome=allow" }

abbrev fresh : BoundedLogRecord
fresh = record { sequence = 12; message = lit "connect outcome=deny|x" }

records-IsStreamed : All IsStreamed (behind ∷ fresh ∷ [])
unfolding join show_nat
records-IsStreamed = (
  record {
    sequence = omega arith;
    line = none_satisfies is_eol (lit "connect outcome=allow") refl;
    size = omega arith;
  },
  (
    record {
      sequence = omega arith;
      line = none_satisfies is_eol (lit "connect outcome=deny|x") refl;
      size = omega arith;
    },
    tt,
  ),
)

session-run_subscriber_example :
    subscribe_session 5 10 (
      map Reply.ok (
        read_lines (
          encode (Response.subscribed audit_subscriber_id)
          ++ (run_subscriber 4 (logged fresh ∷ []) (behind ∷ [])).0)))
    ≡ (
      subscription_ready ∷ IpcEvent.audit (streamed behind) ∷ IpcEvent.audit (streamed fresh) ∷ [],
      Reply.ok 12,
    )
session-run_subscriber_example =
    session-run_subscriber 4 5 10 (behind ∷ []) (fresh ∷ []) (omega arith) (omega arith)
      records-IsStreamed

-- The log before the session, and after one more record
abbrev before : AuditLog
before = record {
  max_bytes = 4096;
  max_records = 8;
  next_seq = 12;
  records = record behind { sequence = 10 } ∷ behind ∷ [];
  subscribers = [];
  file = [];
}

abbrev later : BoundedLogRecord
later = record { sequence = 13; message = lit "x" }

abbrev grown : AuditLog
grown = record before { records = record behind { sequence = 10 } ∷ behind ∷ fresh ∷ later ∷ [] }

later-IsStreamed : IsStreamed later
unfolding join show_nat
later-IsStreamed = record {
  sequence = omega arith;
  line = none_satisfies is_eol (lit "x") refl;
  size = omega arith;
}

seen-IsStreamed : All IsStreamed (since 10 before ++ fresh ∷ [])
unfolding since
seen-IsStreamed = records-IsStreamed

seen_length : length (since 10 before ++ fresh ∷ []) ≡ 2
unfolding since
seen_length = omega arith

session-resumed_example :
    let from' = next_since 10 (session 4 5 10 (since 10 before) (fresh ∷ [])).1 in
    session 4 5 from' (since from' grown) []
    ≡ (subscription_ready ∷ IpcEvent.audit (streamed later) ∷ [], Reply.ok 13)
session-resumed_example =
    session-resumed 4 5 10 before grown (fresh ∷ []) (later ∷ []) refl
      (
        (omega arith, (omega arith, (omega arith, tt))),
        ((omega arith, (omega arith, tt)), ((omega arith, tt), (tt, tt))),
      )
      (omega arith, (omega arith, tt)) seen-IsStreamed (later-IsStreamed, tt)
      (omega (arith, seen_length)) (omega (arith, seen_length)) (omega arith) (omega arith)
