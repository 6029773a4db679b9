-- ===== src/Dns.antt =====
-- crates/interfire-daemon/src/dns.rs: observed names of IPv4 addresses, until they expire.
pub mod Laws
pub mod Tests
use inter_fire.Prelude.{
  ℕ, ◌+◌, ◌*◌, ◌^◌, ◌-◌, ◌≡◌, Bool, true, false, Option, none, some, List, [], ◌∷◌, ◌++◌, Text,
  lower, eq_nat, if◌then◌else◌, leb, Map, get, store, sweep, map,
}

pub record Entry : Type 0 where
  pub hostname : Text
  pub expires_at : ℕ

pub record DnsCache : Type 0 where
  pub capacity : ℕ
  pub default_ttl : ℕ
  pub by_ip : Map ℕ Entry
  pub order : List ℕ

-- `DnsCache::new`; the source panics when the capacity is zero.
unfoldable pub new : ℕ → ℕ → DnsCache
new capacity default_ttl = record {
  capacity = capacity;
  default_ttl = default_ttl;
  by_ip = [];
  order = [];
}

-- `MAX_DNS_ENTRIES` and 300 seconds, in milliseconds
unfoldable pub with_defaults : DnsCache
unfolding new
with_defaults = new 2048 300000

-- `now >= entry.expires_at`
abbrev pub is_expired : ℕ → ℕ → Entry → Bool
is_expired now ipv4 entry = leb entry.expires_at now

unfoldable pub expire : ℕ → DnsCache → DnsCache
expire now c =
    let (by_ip, order) = sweep (is_expired now) c.by_ip c.order in
    record c { by_ip = by_ip; order = order }

abbrev pub or_default : Option ℕ → ℕ → ℕ
or_default none d = d
or_default (some ttl) d = ttl

-- The entry of a name, at the price of the oldest ones
abbrev pub put : ℕ → Text → ℕ → DnsCache → DnsCache
put expires_at hostname ipv4 c =
    let entry : Entry = record { hostname = lower hostname; expires_at = expires_at } in
    let (by_ip, order) = store c.capacity ipv4 entry c.by_ip c.order in
    record c { by_ip = by_ip; order = order }

-- The first time that an `Instant` cannot hold: its seconds are an `i64`.
abbrev pub instant_limit : ℕ
instant_limit = 2 ^ 63 * 1000

-- `observe`: the clock is read by `expire` and then for the entry. It panics when the sum of the clock
-- and the lifetime is no `Instant`; the result is whether it returns, and the cache as it leaves it.
unfoldable pub observe : ℕ → ℕ → Text → ℕ → Option ℕ → DnsCache → Bool × DnsCache
observe now now' hostname ipv4 ttl cache =
    let c = expire now cache in
    let expires_at = now' + or_default ttl c.default_ttl in
    if leb instant_limit expires_at then (false, c) else (true, put expires_at hostname ipv4 c)

abbrev pub name_of : Option Entry → Option Text
name_of none = none
name_of (some entry) = some entry.hostname

-- `hostname_for`
unfoldable pub hostname_for : ℕ → ℕ → DnsCache → Option Text × DnsCache
hostname_for now ipv4 cache = let c = expire now cache in (name_of (get ipv4 c.by_ip), c)

-- The rows of `list_fresh`: the name, the address and the rest of the lifetime.
fresh_rows : ℕ → Map ℕ Entry → List ℕ → List (Text × ℕ × ℕ)
fresh_rows now by_ip [] = []
fresh_rows now by_ip (ipv4 ∷ order) =
    let rest = fresh_rows now by_ip order in
    elim (get ipv4 by_ip) [
      | none ↦ rest
      | some entry ↦ (entry.hostname, ipv4, entry.expires_at - now) ∷ rest
    ]

-- `list_fresh`
unfoldable pub list_fresh : ℕ → ℕ → DnsCache → List (Text × ℕ × ℕ) × DnsCache
unfolding fresh_rows
list_fresh now now' cache = let c = expire now cache in (fresh_rows now' c.by_ip c.order, c)
