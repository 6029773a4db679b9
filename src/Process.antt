-- ===== src/Process.antt =====
-- crates/interfire-daemon/src/process.rs: attribution of a pid through `/proc`, and the cache of
-- attributed processes. `/proc` is a parameter: the contents that each file of a process has when it
-- is read, or none where the read fails.
pub mod Laws
pub mod Stat
mod Tests
use inter_fire.Prelude.{
  ℕ, ◌-◌, ◌^◌, Bool, true, not, ◌&&◌, Option, none, some, List, [], ◌∷◌, ◌++◌, Text, lit, eq_nat,
  eq_pair, nat_eq, if◌then◌else◌, length, get_elem?, parse_uint, split_whitespace, split_on,
  strip_prefix, Map, get, insert, remove, has, filter,
}

pub record ProcessIdentity : Type 0 where
  pub pid : ℕ
  pub start_ticks : ℕ
  pub executable : Text
  pub command_line : List Text
  pub uid : ℕ
  pub cgroup : Text

pub data AttributionError : Type 0 where
  io malformed_stat : AttributionError
  pid_reused : (expected actual : ℕ) → AttributionError

pub data Attributed : Type 0 where
  ok : ProcessIdentity → Attributed
  err : AttributionError → Attributed

-- The files of one process.
pub record ProcFiles : Type 0 where
  pub stat : Option Text
  pub exe : Option Text
  pub cmdline : Option Text
  pub status : Option Text
  pub cgroup : Option Text

abbrev pub Procfs : Type 0
Procfs = ℕ → ProcFiles

abbrev pub u64_max : ℕ
u64_max = 2 ^ 64 - 1

abbrev pub u32_max : ℕ
u32_max = 2 ^ 32 - 1

-- `str::rsplit_once` at a character: the text behind its last occurrence.
pub after_last : ℕ → Text → Option Text
after_last sep [] = none
after_last sep (c ∷ s) = elim (after_last sep s) [
  | some t ↦ some t
  | none ↦ if nat_eq c sep then some s else none
]

abbrev pub and_then {ℓ κ} : {A : Type ℓ} {B : Type κ} → Option A → (A → Option B) → Option B
and_then none f = none
and_then (some a) f = f a

-- `parse_start_ticks`: field 22 of `stat`, the twentieth behind the last parenthesis.
unfoldable pub parse_start_ticks : Text → Option ℕ
unfolding after_last
parse_start_ticks stat =
    and_then (after_last b')' stat)
      λ fields. and_then (get_elem? (split_whitespace fields) 19) λ value. parse_uint u64_max value

-- The value of the first line of `status` that begins with `Uid:` and a tab.
uid_line : List Text → Option Text
uid_line [] = none
uid_line (line ∷ rest) = elim (strip_prefix (lit "Uid:\t") line) [
  | some value ↦ some value
  | none ↦ uid_line rest
]

unfoldable pub parse_uid : Text → Option ℕ
unfolding uid_line
parse_uid status =
    and_then (uid_line (split_on b'\n' status))
      λ line. and_then (get_elem? (split_whitespace line) 0) λ value. parse_uint u32_max value

abbrev is_full : Text → Bool
is_full [] = not true
is_full (_ ∷ _) = true

unfoldable pub parse_cmdline : Text → List Text
parse_cmdline bytes = filter is_full (split_on 0 bytes)

-- The reads of `resolve` behind the start time, in order.
identify : ℕ → ℕ → ProcFiles → Attributed
identify pid start_ticks files = elim files.exe [
  | none ↦ err io
  | some executable ↦ elim files.cmdline [
    | none ↦ err io
    | some bytes ↦ elim files.status [
      | none ↦ err io
      | some status ↦ elim (parse_uid status) [
        | none ↦ err malformed_stat
        | some uid ↦ elim files.cgroup [
          | none ↦ err io
          | some cgroup ↦ ok (record {
            pid = pid;
            start_ticks = start_ticks;
            executable = executable;
            command_line = parse_cmdline bytes;
            uid = uid;
            cgroup = cgroup;
          })
        ]
      ]
    ]
  ]
]

-- `resolve`
unfoldable pub resolve : Procfs → ℕ → ℕ → Attributed
unfolding identify
resolve procfs pid expected = elim (procfs pid).stat [
  | none ↦ err io
  | some stat ↦ elim (parse_start_ticks stat) [
    | none ↦ err malformed_stat
    | some start_ticks ↦
        if not (nat_eq expected 0) && not (nat_eq start_ticks expected)
        then err (pid_reused expected start_ticks)
        else identify pid start_ticks (procfs pid)
  ]
]

abbrev pub Key : Type 0
Key = ℕ × ℕ

pub record ProcessCache : Type 0 where
  pub capacity : ℕ
  pub entries : Map Key ProcessIdentity
  pub order : List Key

-- `ProcessCache::new`; the source panics when the capacity is zero.
unfoldable pub new : ℕ → ProcessCache
new capacity = record { capacity = capacity; entries = []; order = [] }

-- The eviction of `insert`: one entry.
pub evict_one : Map Key ProcessIdentity → List Key → Map Key ProcessIdentity × List Key
evict_one entries [] = (entries, [])
evict_one entries (oldest ∷ order) = (remove oldest entries, order)

-- `insert` of a new key: at capacity the oldest entry makes room.
pub insert_new : ProcessIdentity → ProcessCache → ProcessCache
insert_new identity c =
    let (entries, order) =
      if nat_eq (length c.entries) c.capacity
      then evict_one c.entries c.order
      else (c.entries, c.order) in
    record c {
      order = order ++ (identity.pid, identity.start_ticks) ∷ [];
      entries = insert (identity.pid, identity.start_ticks) identity entries;
    }

-- `ProcessCache::insert`
unfoldable pub insert_identity : ProcessIdentity → ProcessCache → ProcessCache
unfolding insert_new evict_one
insert_identity identity c =
    if has (identity.pid, identity.start_ticks) c.entries then c else insert_new identity c

-- `ProcessCache::get`
unfoldable pub get_identity : ℕ → ℕ → ProcessCache → Option ProcessIdentity
get_identity pid start_ticks c = get (pid, start_ticks) c.entries

identities : Map Key ProcessIdentity → List Key → List ProcessIdentity
identities entries [] = []
identities entries (key ∷ order) =
    let rest = identities entries order in
    elim (get key entries) [ none ↦ rest | some identity ↦ identity ∷ rest ]

-- `ProcessCache::list`: oldest first.
unfoldable pub list : ProcessCache → List ProcessIdentity
unfolding identities
list c = identities c.entries c.order
