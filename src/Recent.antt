-- ===== src/Recent.antt =====
-- crates/interfire-daemon/src/recent.rs: the last destinations of each observed process.
pub mod Laws
mod Tests
use inter_fire.Prelude.{
  ℕ, Bool, ◌&&◌, Option, none, some, List, [], ◌∷◌, ◌++◌, Text, eq_nat, eq_pair, nat_eq,
  if◌then◌else◌, leb, length, Map, get, insert, has, evict,
}

-- The address is the `Ipv4Addr` of the four octets, as one number.
pub record RecentDest : Type 0 where
  pub ipv4 : ℕ
  pub port : ℕ
  pub verdict : Text

-- A process: its pid and its start time.
abbrev pub ProcessKey : Type 0
ProcessKey = ℕ × ℕ

pub record RecentConnects : Type 0 where
  pub capacity_keys : ℕ
  pub per_key : ℕ
  pub order : List ProcessKey
  pub entries : Map ProcessKey (List RecentDest)

-- `RecentConnects::new`; the source panics when a capacity is zero.
unfoldable pub new : ℕ → ℕ → RecentConnects
new capacity_keys per_key = record {
  capacity_keys = capacity_keys;
  per_key = per_key;
  order = [];
  entries = [];
}

-- `row.ipv4 == dest.ipv4 && row.port == dest.port`
abbrev pub same_dest : RecentDest → RecentDest → Bool
same_dest row dest = nat_eq row.ipv4 dest.ipv4 && nat_eq row.port dest.port

-- `iter_mut().find(..)` and the write of the verdict: none when no row has the destination.
pub update_row : RecentDest → List RecentDest → Option (List RecentDest)
update_row dest [] = none
update_row dest (row ∷ queue) =
    let later = update_row dest queue in
    if same_dest row dest
    then some (record row { verdict = dest.verdict } ∷ queue)
    else (elim later [ none ↦ none | some queue' ↦ some (row ∷ queue') ])

-- `while queue.len() >= self.per_key { queue.pop_front(); }`
pub trim_queue : ℕ → List RecentDest → List RecentDest
trim_queue per_key [] = []
trim_queue per_key (row ∷ queue) =
    let rest = trim_queue per_key queue in
    if leb per_key (length (row ∷ queue)) then rest else row ∷ queue

-- The queue of a process after a destination is recorded.
pub record_in : ℕ → RecentDest → List RecentDest → List RecentDest
record_in per_key dest queue = elim (update_row dest queue) [
  | some updated ↦ updated
  | none ↦ trim_queue per_key queue ++ dest ∷ []
]

-- The first half of `record`: a queue for the process, at the price of the oldest ones.
pub with_queue : ProcessKey → RecentConnects → RecentConnects
with_queue key r =
    let (entries, order) = evict r.capacity_keys r.entries r.order in
    if has key r.entries
    then r
    else record r { order = order ++ key ∷ []; entries = insert key [] entries }

-- `record`; the queue is there, so the default of `queue_of` is never used (Laws).
abbrev pub queue_of : Option (List RecentDest) → List RecentDest
queue_of none = []
queue_of (some queue) = queue

unfoldable pub record_dest : ℕ → ℕ → RecentDest → RecentConnects → RecentConnects
unfolding with_queue record_in update_row trim_queue
record_dest pid start_ticks dest recent =
    let r = with_queue (pid, start_ticks) recent in
    let queue = queue_of (get (pid, start_ticks) r.entries) in
    record r { entries = insert (pid, start_ticks) (record_in r.per_key dest queue) r.entries }

-- `for_process`
unfoldable pub for_process : ℕ → ℕ → RecentConnects → List RecentDest
for_process pid start_ticks r = queue_of (get (pid, start_ticks) r.entries)
