-- ===== src/Audit/Stream.antt =====
-- crates/interfire-daemon/src/audit.rs: `run_subscriber`, what a subscriber of the log is sent.
use inter_fire.Prelude.{
  ℕ, zero, suc, Bool, true, false, List, [], ◌∷◌, ◌++◌, map, length, refl, ap, ◌≡◌, ◌≤◌, Text, lit,
  show_nat, frame_of, arith,
}
use inter_fire.Audit.{BoundedLogRecord, Fanout, logged, replaced}

-- `encode_audit_frame`
abbrev pub audit_text : BoundedLogRecord → Text
audit_text record' = show_nat record'.sequence ++ (lit "|" ++ record'.message)

abbrev pub audit_words : BoundedLogRecord → List Text
audit_words record' = lit "v1" ∷ lit "audit" ∷ audit_text record' ∷ []

unfoldable pub encode_audit_frame : BoundedLogRecord → Text
encode_audit_frame record' = frame_of (audit_words record')

abbrev pub sent : Text → Text × Bool → Text × Bool
sent frame (stream, remove) = (frame ++ stream, remove)

-- The loop over the channel, until it is closed; `writes` is how many writes succeed before one fails.
-- The result is what is written, and whether the caller removes the subscriber.
abbrev pub run_events : ℕ → List Fanout → Text × Bool
run_events writes [] = ([], true)
run_events zero (replaced ∷ events) = ([], false)
run_events (suc writes) (replaced ∷ events) = (lit "v1 audit-replaced\n", false)
run_events zero (logged record' ∷ events) = ([], true)
run_events (suc writes) (logged record' ∷ events) =
    sent (encode_audit_frame record') (run_events writes events)

-- `run_subscriber`: the backlog, and then the channel
unfoldable pub run_subscriber : ℕ → List Fanout → List BoundedLogRecord → Text × Bool
run_subscriber writes events [] = run_events writes events
run_subscriber zero events (record' ∷ backlog) = ([], true)
run_subscriber (suc writes) events (record' ∷ backlog) =
    sent (encode_audit_frame record') (run_subscriber writes events backlog)

-- The frames of some records, one after the other
abbrev pub frames : List BoundedLogRecord → Text
frames [] = []
frames (record' ∷ records) = encode_audit_frame record' ++ frames records

run_events-frames :
    (writes : ℕ) (live : List BoundedLogRecord)
    → length live ≤ writes
    → run_events writes (map logged live) ≡ (frames live, true)
run_events-frames writes [] h = refl
run_events-frames zero (record' ∷ live) h = absurd (omega arith)
run_events-frames (suc writes) (record' ∷ live) h =
    ap (sent (encode_audit_frame record')) (run_events-frames writes live (omega arith))

-- A subscriber whose writes succeed is sent the records of the backlog and of the channel, each once and in their order.
pub run_subscriber-frames :
    (writes : ℕ) (backlog live : List BoundedLogRecord)
    → length (backlog ++ live) ≤ writes
    → run_subscriber writes (map logged live) backlog ≡ (frames (backlog ++ live), true)
unfolding run_subscriber
run_subscriber-frames writes [] live h = run_events-frames writes live h
run_subscriber-frames zero (record' ∷ backlog) live h = absurd (omega arith)
run_subscriber-frames (suc writes) (record' ∷ backlog) live h =
    ap (sent (encode_audit_frame record')) (run_subscriber-frames writes backlog live (omega arith))
