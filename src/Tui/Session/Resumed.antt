-- ===== src/Tui/Session/Resumed.antt =====
-- A session after a session.
use inter_fire.Prelude.{
  ℕ, ◌<◌, ◌≤◌, ◌≡◌, ◌∙◌, refl, ap, sym, subst, Bool-cases, inl, inr, true, false, List, [], ◌∷◌,
  ◌++◌, append_assoc, append-nil, map, filter, length, ltb, read_lines, All, arith,
}
use inter_fire.Audit.{BoundedLogRecord, AuditLog, logged, since}
use inter_fire.Audit.Stream.{run_subscriber}
use inter_fire.Proto.Response.{Response, encode}
use inter_fire.Tui.App.{IpcEvent, subscription_ready}
use inter_fire.Tui.Requests.{Reply}
use inter_fire.Tui.Session.{Session, subscribe_session, audit_subscriber_id, next_since}
use inter_fire.Tui.Session.Streamed.{IsStreamed, streamed, last_of, session-run_subscriber}

-- The records behind a number
abbrev behind : ℕ → List BoundedLogRecord → List BoundedLogRecord
behind n records = filter (λ r. ltb n r.sequence) records

abbrev pub IsAbove : ℕ → List BoundedLogRecord → Type 0
IsAbove n = All (λ r. n < r.sequence)

-- Each record has a larger number than those before it.
abbrev pub IsIncreasing : List BoundedLogRecord → Type 0
IsIncreasing [] = Unit
IsIncreasing (r ∷ records) = IsAbove r.sequence records × IsIncreasing records

IsAbove-front :
    (n : ℕ) (front back : List BoundedLogRecord) → IsAbove n (front ++ back) → IsAbove n front
IsAbove-front n [] back v = tt
IsAbove-front n (r ∷ front) back v = (v.0, IsAbove-front n front back v.1)

IsAbove-mono :
    (m n : ℕ) (records : List BoundedLogRecord) → m < n → IsAbove n records → IsAbove m records
IsAbove-mono m n [] h v = tt
IsAbove-mono m n (r ∷ records) h v = (omega (arith, v.0), IsAbove-mono m n records h v.1)

behind_all :
    (n : ℕ) (records : List BoundedLogRecord) → IsAbove n records → behind n records ≡ records
behind_all n [] v = refl
behind_all n (r ∷ records) v =
    let kept : ltb n r.sequence ≡ true = ground (arith, v.0) in
    rw kept (ap (λ rest. r ∷ rest) (behind_all n records v.1))

last_of-le :
    (q n : ℕ) (records : List BoundedLogRecord) → q ≤ n → IsAbove q records → q ≤ last_of n records
last_of-le q n [] h v = h
last_of-le q n (r ∷ records) h v = last_of-le q r.sequence records (omega (arith, v.0)) v.1

-- A record that is not behind the number goes.
behind_front :
    (n : ℕ) (r : BoundedLogRecord) (records rest : List BoundedLogRecord)
    → r.sequence ≤ n
    → behind n records ≡ rest
    → behind n (r ∷ records) ≡ rest
behind_front n r records rest h e =
    let dropped : ltb n r.sequence ≡ false = ground arith in rw dropped e

-- Behind the records that a session brought live, the new ones are left.
live-behind :
    (q : ℕ) (live fresh : List BoundedLogRecord)
    → IsAbove q (live ++ fresh)
    → IsIncreasing (live ++ fresh)
    → behind (last_of q live) (live ++ fresh) ≡ fresh
live-behind q [] fresh v w = behind_all q fresh v
live-behind q (r ∷ live) fresh v w =
    behind_front (last_of r.sequence live) r (live ++ fresh) fresh
      (last_of-le r.sequence r.sequence live (omega arith)
        (IsAbove-front r.sequence live fresh w.0))
      (live-behind r.sequence live fresh w.0 w.1)

IsAbove-behind :
    (q : ℕ) (records live : List BoundedLogRecord)
    → IsAbove q live
    → IsAbove q (behind q records ++ live)
IsAbove-behind q [] live v = v
IsAbove-behind q (r ∷ records) live v = elim (Bool-cases (ltb q r.sequence)) [
  | inl e ↦ rw e ((ground arith, IsAbove-behind q records live v))
  | inr e ↦ rw e (IsAbove-behind q records live v)
]

-- Behind the records that a session brought, the new ones are left.
resumed-behind :
    (q : ℕ) (records live fresh : List BoundedLogRecord)
    → IsIncreasing (records ++ (live ++ fresh))
    → IsAbove q (live ++ fresh)
    → behind (last_of q (behind q records ++ live)) (records ++ (live ++ fresh)) ≡ fresh
resumed-behind q [] live fresh w v = live-behind q live fresh v w
resumed-behind q (r ∷ records) live fresh w v = elim (Bool-cases (ltb q r.sequence)) [
  | inl e ↦
      let all = r ∷ records in
      let above : IsAbove q (all ++ (live ++ fresh)) =
        (ground arith, IsAbove-mono q r.sequence (records ++ (live ++ fresh)) (ground arith) w.0) in
      let assoc = append_assoc all live fresh in
      ap (λ b. behind (last_of q (b ++ live)) (all ++ (live ++ fresh)))
        (behind_all q all (IsAbove-front q all (live ++ fresh) above))
      ∙ ap (behind (last_of q (all ++ live))) (sym assoc)
      ∙ live-behind q (all ++ live) fresh (subst (IsAbove q) (sym assoc) above)
          (subst IsIncreasing (sym assoc) w)
  | inr e ↦
      let low : r.sequence ≤ q = ground arith in
      let kept = IsAbove-behind q records live (IsAbove-front q live fresh v) in
      let last = last_of q (behind q records ++ live) in
      ap (λ b. behind (last_of q (b ++ live)) (r ∷ (records ++ (live ++ fresh))))
        (behind_front q r records (behind q records) low refl)
      ∙ behind_front last r (records ++ (live ++ fresh)) fresh
          (omega (arith, low, last_of-le q q (behind q records ++ live) (omega arith) kept))
          (resumed-behind q records live fresh w.1 v)
]

-- What the client reads of a session, and what it makes of it
abbrev pub session : ℕ → ℕ → ℕ → List BoundedLogRecord → List BoundedLogRecord → Session
session writes sends from backlog live = subscribe_session sends from (
    map Reply.ok (
      read_lines (
        encode (Response.subscribed audit_subscriber_id)
        ++ (run_subscriber writes (map logged live) backlog).0)))

-- Nothing is lost and nothing is repeated between two sessions: when a session that began at a number has ended without an error, and the log has since got more records, and still has the old ones, the session that the client begins at its number brings exactly the records that the first did not, if the numbers of the log increase and no new one is behind the client, the records fit a line, and every write succeeds and every event is taken.
pub session-resumed :
    (writes sends from : ℕ) (log log' : AuditLog) (live fresh : List BoundedLogRecord)
    → log'.records ≡ log.records ++ (live ++ fresh)
    → IsIncreasing (log.records ++ (live ++ fresh))
    → IsAbove from (live ++ fresh)
    → All IsStreamed (since from log ++ live)
    → All IsStreamed fresh
    → length (since from log ++ live) ≤ writes
    → length (since from log ++ live) < sends
    → length fresh ≤ writes
    → length fresh < sends
    → let from' = next_since from (session writes sends from (since from log) live).1 in
      session writes sends from' (since from' log') [] ≡ (
        subscription_ready ∷ map (λ r. IpcEvent.audit (streamed r)) fresh,
        Reply.ok (last_of from' fresh),
      )
unfolding since
session-resumed writes sends from log log' live fresh grown w v x y a b c d =
    let first = session-run_subscriber writes sends from (since from log) live a b x in
    let from' = next_since from (session writes sends from (since from log) live).1 in
    let last : from' ≡ last_of from (since from log ++ live) =
      ap (λ (s : Session). next_since from s.1) first in
    let backlog : since from' log' ≡ fresh =
      ap (behind from') grown
      ∙ ap (λ n. behind n (log.records ++ (live ++ fresh))) last
      ∙ resumed-behind from log.records live fresh w v in
    let nil = append-nil fresh in
    ap (λ records. session writes sends from' records []) backlog
    ∙ subst
        (λ records. session writes sends from' fresh [] ≡ (
          subscription_ready ∷ map (λ r. IpcEvent.audit (streamed r)) records,
          Reply.ok (last_of from' records),
        ))
        nil
        (session-run_subscriber writes sends from' fresh []
          (subst (λ records. length records ≤ writes) (sym nil) c)
          (subst (λ records. length records < sends) (sym nil) d)
          (subst (All IsStreamed) (sym nil) y))
