-- ===== src/Pending.antt =====
-- crates/interfire-daemon/src/pending.rs: the bounded table of packet verdicts that joins the
-- observation thread and the NFQUEUE thread. Instants and durations are numbers of one unit, and each
-- reading of the clock is an argument.
pub mod Expiry
pub mod Laws
mod Tests
use inter_fire.Prelude.{
  ℕ, ◌+◌, ◌-◌, ◌≡◌, refl, ◌↔◌, Bool, true, false, ◌&&◌, Option, none, some, List, [], ◌∷◌, ◌++◌,
  arith, Eq, eq_nat, nat_eq, if◌then◌else◌, ltb, Map, get, remove, insert, has, store, is_some,
}

-- `nfq::Verdict`, the two values that the daemon sends
pub data Verdict : Type 0 where
  accept drop : Verdict

pub record DestKey : Type 0 where
  pub ipv4 : ℕ
  pub port : ℕ

abbrev dest_key_beq : DestKey → DestKey → Bool
dest_key_beq a b = nat_eq a.ipv4 b.ipv4 && nat_eq a.port b.port

pub dest_key_beq_iff : (a b : DestKey) → (dest_key_beq a b ≡ true) ↔ (a ≡ b)
dest_key_beq_iff a b = ground arith

instance abbrev pub eq_dest_key : Eq DestKey
eq_dest_key = record { beq = dest_key_beq; beq_iff = dest_key_beq_iff }

pub record PendingEntry : Type 0 where
  pub verdict : Verdict
  pub inserted_at : ℕ

pub record PendingTable : Type 0 where
  pub capacity : ℕ
  pub ttl : ℕ
  pub entries : Map DestKey PendingEntry
  pub order : List DestKey

-- `PendingTable::new`; the source panics when the capacity is zero.
unfoldable pub new : ℕ → ℕ → PendingTable
new capacity ttl = record { capacity = capacity; ttl = ttl; entries = []; order = [] }

-- `now.duration_since(entry.inserted_at) > self.ttl`
abbrev pub is_stale : ℕ → ℕ → PendingEntry → Bool
is_stale now ttl entry = ltb ttl (now - entry.inserted_at)

-- `order.retain` with its closure, which also removes entries
unfoldable pub expire_loop :
    ℕ → ℕ → Map DestKey PendingEntry → List DestKey → Map DestKey PendingEntry × List DestKey
expire_loop now ttl entries [] = (entries, [])
expire_loop now ttl entries (key ∷ order) =
    let gone = expire_loop now ttl (remove key entries) order in
    let kept = expire_loop now ttl entries order in
    elim (get key entries) [
      | none ↦ kept
      | some entry ↦ if is_stale now ttl entry then gone else (kept.0, key ∷ kept.1)
    ]

-- `expire`
unfoldable pub expire : ℕ → PendingTable → PendingTable
expire now t =
    let (entries, order) = expire_loop now t.ttl t.entries t.order in
    record t { entries = entries; order = order }

-- The part of `insert` behind `expire`
pub insert_expired : ℕ → DestKey → Verdict → PendingTable → PendingTable
insert_expired now key verdict t =
    let fresh : PendingEntry = record { verdict = verdict; inserted_at = now } in
    let (entries, order) = store t.capacity key fresh t.entries t.order in
    record t { entries = entries; order = order }

-- `PendingTable::insert`; the clock is read by `expire` and then for the entry.
unfoldable pub insert_verdict : ℕ → ℕ → DestKey → Verdict → PendingTable → PendingTable
unfolding insert_expired
insert_verdict now now' key verdict t = insert_expired now' key verdict (expire now t)

abbrev pub verdict_of : Option PendingEntry → Option Verdict
verdict_of none = none
verdict_of (some entry) = some entry.verdict

-- `PendingTable::take`: the order keeps the key until the next `expire`.
unfoldable pub take : ℕ → DestKey → PendingTable → Option Verdict × PendingTable
take now key t =
    let t' = expire now t in
    (verdict_of (get key t'.entries), record t' { entries = remove key t'.entries })
