-- ===== src/Stats.antt =====
-- crates/interfire-daemon/src/stats.rs: counters of connects by host, executable, address, port and
-- user since the daemon started.
pub mod Laws
mod Tests
use inter_fire.Prelude.{
  ℕ, ◌+◌, ◌^◌, ◌-◌, ◌/◌, Option, none, some, List, [], ◌∷◌, ◌++◌, Text, lit, Eq, ◌==◌, eq_text,
  eq_nat, if◌then◌else◌, leb, Map, get, insert, has, evict, show_nat, reverse, min,
}

abbrev pub max_stats_keys : ℕ
max_stats_keys = 512

-- `u64::saturating_add`
abbrev pub saturating_add : ℕ → ℕ → ℕ
saturating_add a b = min (a + b) (2 ^ 64 - 1)

pub record StatsCounters : Type 0 where
  pub hits : ℕ
  pub allow : ℕ
  pub deny : ℕ
  pub prompt : ℕ

abbrev pub no_hits : StatsCounters
no_hits = record { hits = 0; allow = 0; deny = 0; prompt = 0 }

-- `StatsCounters::bump`
unfoldable pub bump : Text → StatsCounters → StatsCounters
bump verdict c =
    let d = record c { hits = saturating_add c.hits 1 } in
    if verdict == lit "allow"
    then record d { allow = saturating_add c.allow 1 }
    else if verdict == lit "deny"
    then record d { deny = saturating_add c.deny 1 }
    else if verdict == lit "prompt"
    then record d { prompt = saturating_add c.prompt 1 }
    else d

pub record ConnectStats : Type 0 where
  pub executable : Text
  pub host : Text
  pub ipv4 : Text
  pub port : ℕ
  pub uid : ℕ
  pub verdict : Text

-- One dimension: the counters of each key, and the keys from the oldest.
pub record Dimension {ℓ} (K : Type ℓ) : Type ℓ where
  pub counters : Map K StatsCounters
  pub order : List K

abbrev pub no_keys {ℓ} : {K : Type ℓ} → Dimension K
no_keys = record { counters = []; order = [] }

module _ {ℓ} {K : Type ℓ} ⦃e : Eq K⦄ where
  -- The eviction and the zeroed counters of a new key
  pub with_key : K → Dimension K → Dimension K
  with_key key d =
      let (counters, order) = evict max_stats_keys d.counters d.order in
      if has key d.counters
      then d
      else record { counters = insert key no_hits counters; order = order ++ key ∷ [] }

  -- `bump_string`, `bump_port` and `bump_uid`, which differ in the type of the key
  unfoldable pub bump_key : K → Text → Dimension K → Dimension K
  unfolding with_key
  bump_key key verdict dimension =
      let d = with_key key dimension in
      elim (get key d.counters) [
        | none ↦ d
        | some c ↦ record d { counters = insert key (bump verdict c) d.counters }
      ]

  -- `filter_map` over the reversed order
  pub rows_of : (K → Text) → Map K StatsCounters → List K → List (Text × StatsCounters)
  rows_of show counters [] = []
  rows_of show counters (key ∷ keys) =
      let rest = rows_of show counters keys in
      elim (get key counters) [ none ↦ rest | some c ↦ (show key, c) ∷ rest ]

  -- `snapshot_string`, and the bodies of `ports` and `users`
  unfoldable pub snapshot : (K → Text) → Dimension K → List (Text × StatsCounters)
  unfolding rows_of
  snapshot show d = rows_of show d.counters (reverse d.order)

pub record StatsStore : Type 0 where
  pub started : ℕ
  pub connections : ℕ
  pub denied : ℕ
  pub hosts : Dimension Text
  pub procs : Dimension Text
  pub addrs : Dimension Text
  pub ports : Dimension ℕ
  pub users : Dimension ℕ

-- `StatsStore::new`; instants are in milliseconds.
unfoldable pub new : ℕ → StatsStore
new started = record {
  started = started;
  connections = 0;
  denied = 0;
  hosts = no_keys;
  procs = no_keys;
  addrs = no_keys;
  ports = no_keys;
  users = no_keys;
}

-- `StatsStore::record`
unfoldable pub record_hit : ConnectStats → StatsStore → StatsStore
record_hit hit s = record s {
  connections = saturating_add s.connections 1;
  denied = if hit.verdict == lit "deny" then saturating_add s.denied 1 else s.denied;
  hosts = bump_key hit.host hit.verdict s.hosts;
  procs = bump_key hit.executable hit.verdict s.procs;
  addrs = bump_key hit.ipv4 hit.verdict s.addrs;
  ports = bump_key hit.port hit.verdict s.ports;
  users = bump_key hit.uid hit.verdict s.users;
}

unfoldable pub record_unattributed_deny : StatsStore → StatsStore
record_unattributed_deny s = record s {
  connections = saturating_add s.connections 1;
  denied = saturating_add s.denied 1;
}

pub record StatsSummary : Type 0 where
  pub connections : ℕ
  pub denied : ℕ
  pub uptime_secs : ℕ
  pub rules : ℕ

unfoldable pub summary : ℕ → ℕ → StatsStore → StatsSummary
summary now rules s = record {
  connections = s.connections;
  denied = s.denied;
  uptime_secs = (now - s.started) / 1000;
  rules = rules;
}

-- `hosts`, `procs`, `addrs`, `ports`, `users`: the newest key first.
unfoldable pub hosts : StatsStore → List (Text × StatsCounters)
hosts s = snapshot (λ key. key) s.hosts

unfoldable pub procs : StatsStore → List (Text × StatsCounters)
procs s = snapshot (λ key. key) s.procs

unfoldable pub addrs : StatsStore → List (Text × StatsCounters)
addrs s = snapshot (λ key. key) s.addrs

unfoldable pub ports : StatsStore → List (Text × StatsCounters)
ports s = snapshot show_nat s.ports

unfoldable pub users : StatsStore → List (Text × StatsCounters)
users s = snapshot show_nat s.users
