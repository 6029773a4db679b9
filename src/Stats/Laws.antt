-- ===== src/Stats/Laws.antt =====
-- Every dimension is bounded, and the counters of a key add up.
use inter_fire.Prelude.{
  ℕ, ◌+◌, ◌-◌, ◌^◌, ◌≤◌, ◌≡◌, refl, ◌⊎◌, inl, inr, Bool, true, false, Option, none, some, [], arith,
  min, Text, lit, text_eq, Eq, eq_text, eq_nat, ◌==◌, ==_self, if◌then◌else◌, get, has, length,
  Bool-cases, Option-cases, IsOrdered, IsOrdered-empty, push-IsOrdered, update-IsOrdered,
  length-insert-le, length-insert-has, get-insert, evict, length-evict, get-evict, evict-IsOrdered,
  evict-has,
}
use inter_fire.Stats.{
  max_stats_keys, saturating_add, StatsCounters, no_hits, bump, ConnectStats, Dimension, with_key,
  bump_key, StatsStore, record_hit, record_unattributed_deny,
}

-- The labels that the daemon records.
abbrev pub IsLabel : Text → Type 0
IsLabel verdict = (verdict ≡ lit "allow") ⊎ (verdict ≡ lit "deny") ⊎ (verdict ≡ lit "prompt")

-- The hits are the sum of the three verdicts, up to the largest `u64`.
pub record IsCounted (c : StatsCounters) : Type 0 where
  pub total : c.hits ≡ min (c.allow + c.deny + c.prompt) (2 ^ 64 - 1)

bump_labels :
    (c : StatsCounters)
    → (bump (lit "allow") c
        ≡ record c { hits = saturating_add c.hits 1; allow = saturating_add c.allow 1 })
      × (bump (lit "deny") c
          ≡ record c { hits = saturating_add c.hits 1; deny = saturating_add c.deny 1 })
      × (bump (lit "prompt") c
          ≡ record c { hits = saturating_add c.hits 1; prompt = saturating_add c.prompt 1 })
unfolding bump text_eq
bump_labels c = (refl, refl, refl)

bump-IsCounted :
    (verdict : Text) (c : StatsCounters)
    → IsLabel verdict
    → IsCounted c
    → IsCounted (bump verdict c)
bump-IsCounted verdict c (inl e) h = rw (e, (bump_labels c).0) (omega (arith, h.total))
bump-IsCounted verdict c (inr (inl e)) h = rw (e, (bump_labels c).1) (omega (arith, h.total))
bump-IsCounted verdict c (inr (inr e)) h = rw (e, (bump_labels c).2) (omega (arith, h.total))

abbrev pub counters_or : Option StatsCounters → StatsCounters
counters_or none = no_hits
counters_or (some c) = c

module _ {ℓ} {K : Type ℓ} ⦃e : Eq K⦄ where
  pub record IsBounded (d : Dimension K) : Type ℓ where
    pub bounded : length d.counters ≤ max_stats_keys
    pub ordered : IsOrdered d.counters d.order
    pub counted : (key : K) (c : StatsCounters) → get key d.counters ≡ some c → IsCounted c

  pub IsBounded-empty : IsBounded (record { counters = []; order = [] })
  unfolding get
  IsBounded-empty = record {
    bounded = omega arith;
    ordered = IsOrdered-empty;
    counted = λ k c h. cc;
  }

  with_key-IsBounded :
      (key : K) (d : Dimension K)
      → IsBounded d
      → IsBounded (with_key key d)
        × (get key (with_key key d).counters ≡ some (counters_or (get key d.counters)))
  unfolding with_key
  with_key-IsBounded key d v = elim (Option-cases (get key d.counters)) [
    | inr (c, found) ↦ rw found (v, found)
    | inl missing ↦
        let p = evict max_stats_keys d.counters d.order in
        let gone : has key p.0 ≡ false =
          evict-has max_stats_keys key no_hits d.counters d.order (ground arith) in
        let room = length-evict max_stats_keys d.counters d.order (omega arith) in
        rw missing (
          record {
            bounded = omega (arith, length-insert-le key no_hits p.0, room);
            ordered =
                push-IsOrdered key no_hits p.0 p.1 gone
                  (evict-IsOrdered max_stats_keys d.counters d.order v.ordered);
            counted = λ other c h. elim (Bool-cases (key == other)) [
              | inl same ↦
                  let f : c ≡ no_hits = ground (arith, get-insert key other no_hits p.0) in
                  rw f (record { total = refl })
              | inr apart ↦ v.counted other c (
                  get-evict max_stats_keys d.counters d.order other c
                    (ground (arith, get-insert key other no_hits p.0)))
            ];
          },
          ground (arith, get-insert key key no_hits p.0, ==_self key),
        )
  ]

  -- Counting a connect keeps the dimension bounded and its counters adding up, and raises the
  -- counters of its key, from zero if the key is new.
  pub bump_key-IsBounded :
      (key : K) (verdict : Text) (d : Dimension K)
      → IsLabel verdict
      → IsBounded d
      → IsBounded (bump_key key verdict d)
        × (get key (bump_key key verdict d).counters
            ≡ some (bump verdict (counters_or (get key d.counters))))
  unfolding bump_key
  bump_key-IsBounded key verdict dimension l valid =
      let (v, found) = with_key-IsBounded key dimension valid in
      let d = with_key key dimension in
      let c = counters_or (get key dimension.counters) in
      let c' = bump verdict c in
      rw (found, bump_key)
        (
          record {
            bounded = omega (arith, length-insert-has key c' d.counters (rw found), v.bounded);
            ordered = update-IsOrdered key c' d.counters d.order (rw found) v.ordered;
            counted = λ other x h. elim (Bool-cases (key == other)) [
              | inl same ↦
                  let f : x ≡ c' = ground (arith, get-insert key other c' d.counters) in
                  rw f (bump-IsCounted verdict c l (v.counted key c found))
              | inr apart ↦ v.counted other x (ground (arith, get-insert key other c' d.counters))
            ];
          },
          ground (arith, get-insert key key c' d.counters, ==_self key),
        )

denied_le :
    (b : Bool) (c d : ℕ)
    → d ≤ c
    → c ≤ 2 ^ 64 - 1
    → (if b then saturating_add d 1 else d) ≤ saturating_add c 1
denied_le true c d h w = omega arith
denied_le false c d h w = omega arith

pub record IsValid (s : StatsStore) : Type 0 where
  pub hosts : IsBounded s.hosts
  pub procs : IsBounded s.procs
  pub addrs : IsBounded s.addrs
  pub ports : IsBounded s.ports
  pub users : IsBounded s.users
  pub fewer_denied : s.denied ≤ s.connections
  pub within : s.connections ≤ 2 ^ 64 - 1

-- A recorded connect, and one that could not be attributed, keep every dimension within 512 keys, the
-- counters adding up, and the denied connects among the connects; and the next count of connects is
-- one more, until the largest `u64`.
pub record_hit-IsValid :
    (hit : ConnectStats) (s : StatsStore)
    → IsLabel hit.verdict
    → IsValid s
    → IsValid (record_hit hit s)
      × IsValid (record_unattributed_deny s)
      × ((record_hit hit s).connections ≡ min (s.connections + 1) (2 ^ 64 - 1))
      × ((record_unattributed_deny s).denied ≡ min (s.denied + 1) (2 ^ 64 - 1))
unfolding record_hit record_unattributed_deny
record_hit-IsValid hit s l v = (
  record {
    hosts = (bump_key-IsBounded hit.host hit.verdict s.hosts l v.hosts).0;
    procs = (bump_key-IsBounded hit.executable hit.verdict s.procs l v.procs).0;
    addrs = (bump_key-IsBounded hit.ipv4 hit.verdict s.addrs l v.addrs).0;
    ports = (bump_key-IsBounded hit.port hit.verdict s.ports l v.ports).0;
    users = (bump_key-IsBounded hit.uid hit.verdict s.users l v.users).0;
    fewer_denied =
        denied_le (hit.verdict == lit "deny") s.connections s.denied v.fewer_denied v.within;
    within = omega arith;
  },
  record {
    hosts = v.hosts;
    procs = v.procs;
    addrs = v.addrs;
    ports = v.ports;
    users = v.users;
    fewer_denied = omega (arith, v.fewer_denied);
    within = omega arith;
  },
  refl,
  refl,
)
