-- ===== src/Daemon/Connect.antt =====
-- From the event of a connect to the verdict of its packet, through the shared table.
use inter_fire.Prelude.{
  ℕ, zero, suc, ◌-◌, ◌≤◌, ◌<◌, ◌≡◌, refl, ◌∙◌, ap, Bool, true, false, Option, none, some, List,
  arith, if◌then◌else◌,
}
use inter_fire.Pending.{Verdict, accept, drop, PendingTable, DestKey, insert_verdict, take}
use inter_fire.Pending.Laws.{IsValid, take-insert_verdict}
use inter_fire.Event.{TcpConnectEvent}
use inter_fire.Packet.{tcp_destination}
use inter_fire.Policy.{decide}
use inter_fire.Daemon.{
  Shared, World, handle_event, publish, cannot_decide, attempts, lookup_key, lookup_verdict,
  found_or,
}

abbrev verdict_in : Verdict × Option PendingTable → Verdict
verdict_in x = x.0

-- An attempt that finds an accepted verdict in the table
abbrev pub IsFound : DestKey → (ℕ → ℕ) → (ℕ → Shared) → ℕ → Type 0
IsFound key now states i =
    ((states i).poisoned.pending ≡ false) × ((take (now i) key (states i).pending).0 ≡ some accept)

attempts-accept :
    (n : ℕ) (key : DestKey) (now : ℕ → ℕ) (states : ℕ → Shared)
    → (attempts n key now states).0 ≡ accept
    → (i : ℕ) × (i < n) × IsFound key now states i
unfolding attempts
attempts-accept zero key now states h = cc
attempts-accept (suc n) key now states h =
    go (attempts-accept n key now states) (states n).poisoned.pending
      (take (now n) key (states n).pending).0 refl refl h
  where
    go :
        ((attempts n key now states).0 ≡ accept → (i : ℕ) × (i < n) × IsFound key now states i)
        → (p : Bool) (o : Option Verdict) → (states n).poisoned.pending ≡ p
        → (take (now n) key (states n).pending).0 ≡ o
        → (verdict_in (
            if p
            then (drop, none)
            else found_or o (take (now n) key (states n).pending).1 (attempts n key now states)))
          ≡ accept
        → (i : ℕ) × (i < suc n) × IsFound key now states i
    go earlier true o e f k = cc
    go earlier false (some accept) e f k = (n, omega arith, (e, f))
    go earlier false (some drop) e f k = cc
    go earlier false none e f k =
        let (i, below, found) = earlier k in (i, omega (arith, below), found)

lookup_key-accept :
    (o : Option DestKey) (now : ℕ → ℕ) (states : ℕ → Shared)
    → (lookup_key o now states).0 ≡ accept
    → (key : DestKey) × (o ≡ some key) × (i : ℕ) × (i < 50) × IsFound key now states i
lookup_key-accept none now states h = cc
lookup_key-accept (some key) now states h =
    let (i, below, found) = attempts-accept 50 key now states h in (key, refl, i, below, found)

-- A queued packet is let through only on a decision for its destination: it parses as IPv4 TCP, and one of the 50 attempts finds, under an unpoisoned lock, a fresh accepted verdict stored for exactly its address and port. Without such a decision it is dropped.
pub lookup_verdict-accept :
    (payload : List ℕ) (now : ℕ → ℕ) (states : ℕ → Shared)
    → (lookup_verdict payload now states).0 ≡ accept
    → (key : DestKey) × (tcp_destination payload ≡ some key)
      × (i : ℕ) × (i < 50)
      × IsFound key now states i
unfolding lookup_verdict
lookup_verdict-accept payload now states h =
    lookup_key-accept (tcp_destination payload) now states h

attempts-found :
    (n : ℕ) (key : DestKey) (now : ℕ → ℕ) (states : ℕ → Shared) (verdict : Verdict)
    → (states n).poisoned.pending ≡ false
    → (take (now n) key (states n).pending).0 ≡ some verdict
    → (attempts (suc n) key now states).0 ≡ verdict
unfolding attempts
attempts-found n key now states verdict clean found = rw (clean, found) refl

handle_event-pending :
    (world : World) (event : TcpConnectEvent) (s : Shared)
    → cannot_decide s.poisoned ≡ false
    → s.poisoned.pending ≡ false
    → ((handle_event world event s).pending
        ≡ insert_verdict world.inserted world.inserted_at
            (decide world.readings world.procfs s.rules event s.tables).0.key
            (decide world.readings world.procfs s.rules event s.tables).0.packet_verdict
            s.pending)
      × ((handle_event world event s).poisoned.pending ≡ false)
unfolding handle_event publish
handle_event-pending world event s ready clean = rw (ready, clean) (refl, refl)

-- The verdict of a connect reaches its packet: when the event has been handled with no lock poisoned, the first attempt for a packet to the same destination, made while the verdict is fresh, returns what the policy decided.
pub connect_verdict :
    (world : World) (event : TcpConnectEvent) (s : Shared) (payload : List ℕ) (now : ℕ → ℕ)
    → IsValid s.pending
    → cannot_decide s.poisoned ≡ false
    → s.poisoned.pending ≡ false
    → tcp_destination payload
      ≡ some (decide world.readings world.procfs s.rules event s.tables).0.key
    → now 49 - world.inserted_at ≤ s.pending.ttl
    → (lookup_verdict payload now (λ _. handle_event world event s)).0
      ≡ (decide world.readings world.procfs s.rules event s.tables).0.packet_verdict
unfolding lookup_verdict
connect_verdict world event s payload now v ready clean parsed fresh =
    let decision = (decide world.readings world.procfs s.rules event s.tables).0 in
    let (stored, still) = handle_event-pending world event s ready clean in
    let taken =
      ap (λ t. (take (now 49) decision.key t).0) stored
      ∙ take-insert_verdict world.inserted world.inserted_at (now 49) decision.key
          decision.packet_verdict s.pending v fresh in
    ap (λ o. (lookup_key o now (λ _. handle_event world event s)).0) parsed
    ∙ attempts-found 49 decision.key now (λ _. handle_event world event s) decision.packet_verdict
        still taken
