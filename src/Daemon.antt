-- ===== src/Daemon.antt =====
-- The two threads around a connect, over the state that they share:
-- crates/interfire-daemon/src/observe.rs
-- (`handle_event`) and crates/interfire-daemon/src/nfqueue_live.rs (`lookup_verdict`). Each locks the
-- tables it needs; a lock that a panic has poisoned stays so.

pub mod Connect
mod Tests
use inter_fire.Prelude.{
  ℕ, zero, suc, Bool, true, false, not, ◌||◌, Option, none, some, List, [], ◌∷◌, ◌++◌, Text, lit,
  show_nat, if◌then◌else◌, length,
}
use inter_fire.Rules.{RuleSet}
use inter_fire.Pending.{Verdict, drop, PendingTable, DestKey, insert_verdict, take}
use inter_fire.Process.{Procfs}
use inter_fire.Stats.{StatsStore, ConnectStats, record_hit, record_unattributed_deny}
use inter_fire.Audit.{AuditLog, Written, append}
use inter_fire.Event.{TcpConnectEvent, try_from_bytes}
use inter_fire.Packet.{tcp_destination}
use inter_fire.Policy.{Tables, Decision, Readings, decide}

-- Which locks are poisoned
pub record Locks : Type 0 where
  pub rules : Bool
  pub process_cache : Bool
  pub prompts : Bool
  pub dns : Bool
  pub recent : Bool
  pub pending : Bool
  pub stats : Bool
  pub audit : Bool

pub record Shared : Type 0 where
  pub rules : RuleSet
  pub tables : Tables
  pub pending : PendingTable
  pub stats : StatsStore
  pub audit : AuditLog
  pub poisoned : Locks

-- What one event meets outside of the state: `/proc`, the clock and the file of the log
pub record World : Type 0 where
  pub procfs : Procfs
  pub readings : Readings
  -- The two readings of `PendingTable::insert`
  pub inserted : ℕ
  pub inserted_at : ℕ
  pub written : Written

abbrev pub show_bool : Bool → Text
show_bool true = lit "true"
show_bool false = lit "false"

abbrev pub outcome_of : Option ConnectStats → Text
outcome_of none = lit "deny"
outcome_of (some hit) = hit.verdict

abbrev pub record_stats : Option ConnectStats → StatsStore → StatsStore
record_stats none s = record_unattributed_deny s
record_stats (some hit) s = record_hit hit s

abbrev pub audit_line : Decision → Text
audit_line decision =
    lit "connect port="
    ++ show_nat decision.key.port
    ++ lit " attributed="
    ++ show_bool decision.attributed
    ++ lit " outcome="
    ++ outcome_of decision.stats

-- The part of `handle_event` behind the decision
unfoldable pub publish : World → Decision → Shared → Shared
publish world decision s = record s {
  pending =
      if s.poisoned.pending
      then s.pending
      else insert_verdict world.inserted world.inserted_at decision.key decision.packet_verdict
          s.pending;
  stats = if s.poisoned.stats then s.stats else record_stats decision.stats s.stats;
  audit = if s.poisoned.audit then s.audit else append world.written (audit_line decision) s.audit;
}

abbrev pub cannot_decide : Locks → Bool
cannot_decide p = p.rules || (p.process_cache || (p.prompts || (p.dns || p.recent)))

-- `handle_event`: nothing happens where one of the first five locks is poisoned.
unfoldable pub handle_event : World → TcpConnectEvent → Shared → Shared
unfolding publish
handle_event world event s =
    let (decision, tables) = decide world.readings world.procfs s.rules event s.tables in
    if cannot_decide s.poisoned then s else publish world decision (record s { tables = tables })

abbrev pub handle_some : World → Option TcpConnectEvent → Shared → Shared
handle_some world none s = s
handle_some world (some event) s = handle_event world event s

-- `process_ring_item`: a record that is too short is dropped.
unfoldable pub process_ring_item : World → List ℕ → Shared → Shared
process_ring_item world bytes s = handle_some world (try_from_bytes bytes) s

abbrev pub found_or :
    Option Verdict → PendingTable → Verdict × Option PendingTable → Verdict × Option PendingTable
found_or (some verdict) pending later = (verdict, some pending)
found_or none pending later = later

-- The attempts of `lookup_verdict`, each with its reading of the clock. Between two of them the other
-- threads may change the state, so that each attempt has the state it meets.
unfoldable pub attempts : ℕ → DestKey → (ℕ → ℕ) → (ℕ → Shared) → Verdict × Option PendingTable
attempts zero key now states = (drop, none)
attempts (suc left) key now states =
    let s = states left in
    let (found, pending) = take (now left) key s.pending in
    let later = attempts left key now states in
    if s.poisoned.pending then (drop, none) else found_or found pending later

abbrev pub lookup_key : Option DestKey → (ℕ → ℕ) → (ℕ → Shared) → Verdict × Option PendingTable
lookup_key none now states = (drop, none)
lookup_key (some key) now states = attempts 50 key now states

-- `lookup_verdict`: the verdict, and the table that the successful attempt leaves
unfoldable pub lookup_verdict : List ℕ → (ℕ → ℕ) → (ℕ → Shared) → Verdict × Option PendingTable
unfolding attempts
lookup_verdict payload now states = lookup_key (tcp_destination payload) now states
