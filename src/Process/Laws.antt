-- ===== src/Process/Laws.antt =====
-- An attributed process is the one of the event, and the cache is bounded and keyed by identity.
use inter_fire.Prelude.{
  ℕ, ◌≤◌, ◌<◌, ◌≡◌, ◌∙◌, ap, refl, map, All, ◌⊎◌, inl, inr, sym, true, false, Option, none, some,
  List, [], ◌∷◌, arith, eq_nat, eq_pair, ◌==◌, ==_iff, ==_self, nat_eq, if◌then◌else◌, Map, get,
  has, length, Bool-cases, Option-cases, IsOrdered, push-IsOrdered, IsOrdered-pop, length-insert-le,
  length-remove-lt, get-insert, get-remove,
}
use inter_fire.Process.{
  ProcessIdentity, Procfs, ProcFiles, ok, resolve, identify, parse_start_ticks, Key, ProcessCache,
  evict_one, identities, list, insert_new, insert_identity, get_identity, and_then,
}

identify_lem :
    (pid start_ticks : ℕ) (files : ProcFiles) (identity : ProcessIdentity)
    → identify pid start_ticks files ≡ ok identity
    → (identity.pid ≡ pid)
      × (identity.start_ticks ≡ start_ticks)
      × (files.exe ≡ some identity.executable)
unfolding identify
identify_lem pid start_ticks files identity h = ground arith

-- A process that is resolved has the pid that was asked for, the start time and the executable that
-- `/proc` shows for it, and, unless none was expected, the expected start time.
pub resolve_lem :
    (procfs : Procfs) (pid expected : ℕ) (identity : ProcessIdentity)
    → resolve procfs pid expected ≡ ok identity
    → (identity.pid ≡ pid)
      × ((expected ≡ 0) ⊎ (identity.start_ticks ≡ expected))
      × (and_then (procfs pid).stat parse_start_ticks ≡ some identity.start_ticks)
      × ((procfs pid).exe ≡ some identity.executable)
unfolding resolve
resolve_lem procfs pid expected identity h = elim (Option-cases (procfs pid).stat) [
  | inl e ↦ ground arith
  | inr (stat, e) ↦ elim (Option-cases (parse_start_ticks stat)) [
    | inl e' ↦ ground arith
    | inr (ticks, e') ↦ ground (arith, identify_lem pid ticks (procfs pid) identity)
  ]
]

pub record IsValid (c : ProcessCache) : Type 0 where
  pub positive : 0 < c.capacity
  pub bounded : length c.entries ≤ c.capacity
  pub ordered : IsOrdered c.entries c.order
  pub keyed :
      (key : Key) (identity : ProcessIdentity)
      → get key c.entries ≡ some identity
      → key ≡ (identity.pid, identity.start_ticks)

has-first : (m : Map Key ProcessIdentity) → 0 < length m → (k : Key) × (has k m ≡ true)
unfolding get
has-first [] h = absurd (omega arith)
has-first ((k, identity) ∷ m) h = (k, ground (arith, ==_iff k k))

-- In a full cache one entry goes.
evict_one_lem :
    (m : Map Key ProcessIdentity) (order : List Key)
    → IsOrdered m order
    → 0 < length m
    → IsOrdered (evict_one m order).0 (evict_one m order).1
      × (length (evict_one m order).0 < length m)
      × ((k : Key) → has k (evict_one m order).0 ≡ true → get k (evict_one m order).0 ≡ get k m)
unfolding evict_one
evict_one_lem m [] w h = let (k, there) = has-first m h in absurd (cc (w.covered.covers k there))
evict_one_lem m (oldest ∷ order) w h = (
  IsOrdered-pop oldest m order w,
  length-remove-lt oldest m (w.live oldest (ground (arith, ==_iff oldest oldest))),
  λ k t. ground (arith, get-remove oldest k m),
)

-- Both ways of `insert_new` to the map and the order that it pushes into.
record HasRoom (c : ProcessCache) (p : Map Key ProcessIdentity × List Key) : Type 0 where
  room : length p.0 < c.capacity
  ordered : IsOrdered p.0 p.1
  kept : (k : Key) → has k p.0 ≡ true → get k p.0 ≡ get k c.entries

make_room :
    (c : ProcessCache)
    → IsValid c
    → HasRoom c (
        if nat_eq (length c.entries) c.capacity
        then evict_one c.entries c.order
        else (c.entries, c.order))
make_room c v = elim (Bool-cases (nat_eq (length c.entries) c.capacity)) [
  | inl full ↦
      let (o, l, k) = evict_one_lem c.entries c.order v.ordered (ground (arith, v.positive)) in
      rw full (record { room = ground arith; ordered = o; kept = k })
  | inr free ↦
      rw free (record { room = ground (arith, v.bounded); ordered = v.ordered; kept = λ k h. refl })
]

insert_new-IsValid :
    (identity : ProcessIdentity) (c : ProcessCache)
    → IsValid c
    → has (identity.pid, identity.start_ticks) c.entries ≡ false
    → IsValid (insert_new identity c)
unfolding insert_new
insert_new-IsValid identity c v new =
    let key : Key = (identity.pid, identity.start_ticks) in
    let p : Map Key ProcessIdentity × List Key =
      if nat_eq (length c.entries) c.capacity
      then evict_one c.entries c.order
      else (c.entries, c.order) in
    let r = make_room c v in
    record {
      positive = v.positive;
      bounded = omega (arith, length-insert-le key identity p.0, r.room);
      ordered = push-IsOrdered key identity p.0 p.1 (ground (arith, r.kept key)) r.ordered;
      keyed = λ k other h. elim (Bool-cases (key == k)) [
        | inl same ↦
            let e : other ≡ identity = ground (arith, get-insert key k identity p.0) in
            let f : key ≡ k = (==_iff key k).0 same in rw e (sym f)
        | inr apart ↦ v.keyed k other (ground (arith, get-insert key k identity p.0, r.kept k))
      ];
    }

abbrev pub cached_or : ProcessIdentity → Option ProcessIdentity → ProcessIdentity
cached_or identity none = identity
cached_or identity (some cached) = cached

-- Inserting keeps the cache within its capacity, ordered and keyed by identity; the inserted process
-- is found afterwards, as it was cached first.
pub insert_identity-IsValid :
    (identity : ProcessIdentity) (c : ProcessCache)
    → IsValid c
    → IsValid (insert_identity identity c)
      × (get_identity identity.pid identity.start_ticks (insert_identity identity c)
          ≡ some (cached_or identity (get_identity identity.pid identity.start_ticks c)))
unfolding insert_identity get_identity
insert_identity-IsValid identity c v =
    elim (Option-cases (get (identity.pid, identity.start_ticks) c.entries)) [
      | inr (cached, e) ↦ rw e (v, e)
      | inl e ↦ rw e (
        insert_new-IsValid identity c v (ground arith),
        unfold insert_new in
            ground (
              arith,
              get-insert {K = Key} (identity.pid, identity.start_ticks)
                  (identity.pid, identity.start_ticks) identity
                  (if nat_eq (length c.entries) c.capacity
                    then evict_one c.entries c.order
                    else (c.entries, c.order)).0,
              ==_self {A = Key} (identity.pid, identity.start_ticks),
            ),
      )
    ]

abbrev pub key_of : ProcessIdentity → Key
key_of identity = (identity.pid, identity.start_ticks)

listed :
    (entries : Map Key ProcessIdentity) (found : List ProcessIdentity)
    → All (λ identity. get (key_of identity) entries ≡ some identity) found
    → identities entries (map key_of found) ≡ found
unfolding identities
listed entries [] h = refl
listed entries (identity ∷ found) h =
    rw (h.0, identities) (ap (λ rest. identity ∷ rest) (listed entries found h.1))

-- The list shows what the entries hold, in the order of the keys.
pub list-order :
    (cache : ProcessCache) (found : List ProcessIdentity)
    → cache.order ≡ map key_of found
    → All (λ identity. get (key_of identity) cache.entries ≡ some identity) found
    → list cache ≡ found
unfolding list
list-order cache found e h = ap (identities cache.entries) e ∙ listed cache.entries found h
