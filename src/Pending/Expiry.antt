-- ===== src/Pending/Expiry.antt =====
-- What `expire` keeps: exactly the fresh entries, each with its key in the order.
use inter_fire.Prelude.{
  ℕ, ◌≡◌, refl, Bool, false, ◌&&◌, not, Option, none, some, List, [], ◌∷◌, arith, ==_iff,
  if◌then◌else◌, Map, get, remove, has, contains, IsNodup, keys, get-remove, keys-remove-IsNodup,
  IsCovered, IsOrdered, length, length-remove-le, ◌≤◌,
}
use inter_fire.Pending.{
  DestKey, eq_dest_key, PendingEntry, PendingTable, is_stale, expire_loop, expire,
}

abbrev stale_at : ℕ → ℕ → Option PendingEntry → Bool
stale_at now ttl none = false
stale_at now ttl (some entry) = is_stale now ttl entry

module _ (now ttl : ℕ) where
  get-expire_loop :
      (k : DestKey) (m : Map DestKey PendingEntry) (order : List DestKey)
      → get k (expire_loop now ttl m order).0
        ≡ (if contains k order && stale_at now ttl (get k m) then none else get k m)
  unfolding expire_loop
  get-expire_loop k m [] = refl
  get-expire_loop k m (j ∷ order) = ground (
    arith,
    get-expire_loop k m order,
    get-expire_loop k (remove j m) order,
    get-remove j k m,
    ==_iff k j,
    ==_iff j k,
  )

  contains-expire_loop :
      (k : DestKey) (m : Map DestKey PendingEntry) (order : List DestKey)
      → contains k (expire_loop now ttl m order).1
        ≡ (contains k order && has k m && not (stale_at now ttl (get k m)))
  unfolding expire_loop
  contains-expire_loop k m [] = refl
  contains-expire_loop k m (j ∷ order) = ground (
    arith,
    contains-expire_loop k m order,
    contains-expire_loop k (remove j m) order,
    get-remove j k m,
    ==_iff k j,
    ==_iff j k,
  )

  keys-expire_loop-IsNodup :
      (m : Map DestKey PendingEntry) (order : List DestKey)
      → IsNodup (keys m)
      → IsNodup (keys (expire_loop now ttl m order).0)
  unfolding expire_loop
  keys-expire_loop-IsNodup m [] u = u
  keys-expire_loop-IsNodup m (j ∷ order) u = ground (
    arith,
    keys-expire_loop-IsNodup m order u,
    keys-expire_loop-IsNodup (remove j m) order (keys-remove-IsNodup j m u),
  )

  order-expire_loop-IsNodup :
      (m : Map DestKey PendingEntry) (order : List DestKey)
      → IsNodup order
      → IsNodup (expire_loop now ttl m order).1
  unfolding expire_loop
  order-expire_loop-IsNodup m [] u = u
  order-expire_loop-IsNodup m (j ∷ order) u = ground (
    arith,
    order-expire_loop-IsNodup m order u.1,
    order-expire_loop-IsNodup (remove j m) order u.1,
    contains-expire_loop j m order,
  )

  pub length-expire_loop-le :
      (m : Map DestKey PendingEntry) (order : List DestKey)
      → length (expire_loop now ttl m order).0 ≤ length m
  unfolding expire_loop
  length-expire_loop-le m [] = omega arith
  length-expire_loop-le m (j ∷ order) = ground (
    arith,
    length-expire_loop-le m order,
    length-expire_loop-le (remove j m) order,
    length-remove-le j m,
  )

-- After expiry the order holds exactly the keys of the map.
pub expire-IsOrdered :
    (now : ℕ) (t : PendingTable)
    → IsCovered t.entries t.order
    → IsOrdered (expire now t).entries (expire now t).order
unfolding expire
expire-IsOrdered now t w = record {
  covered = record {
    unique = keys-expire_loop-IsNodup now t.ttl t.entries t.order w.unique;
    once = order-expire_loop-IsNodup now t.ttl t.entries t.order w.once;
    covers = λ k. grind (
      arith,
      get-expire_loop now t.ttl k t.entries t.order,
      contains-expire_loop now t.ttl k t.entries t.order,
      w.covers k,
    );
  };
  live = λ k. grind (
    arith,
    get-expire_loop now t.ttl k t.entries t.order,
    contains-expire_loop now t.ttl k t.entries t.order,
  );
}

-- The verdict of a key that is not older than the lifetime.
abbrev pub fresh_of : ℕ → ℕ → Option PendingEntry → Option PendingEntry
fresh_of now ttl none = none
fresh_of now ttl (some entry) = if is_stale now ttl entry then none else some entry

pub get-expire :
    (now : ℕ) (t : PendingTable) (k : DestKey)
    → IsCovered t.entries t.order
    → get k (expire now t).entries ≡ fresh_of now t.ttl (get k t.entries)
unfolding expire
get-expire now t k w = grind (arith, get-expire_loop now t.ttl k t.entries t.order, w.covers k)
