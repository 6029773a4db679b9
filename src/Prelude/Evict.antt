-- ===== src/Prelude/Evict.antt =====
-- The loop by which every bounded table of the daemon makes room: pop the oldest key of `order` and
-- remove its entry until the map is below capacity; with no key left, clear the map.
use Prim.Native.Nat.{ℕ, ◌<◌}
use mathlib.Core.Path.{◌≡◌, refl}
use mathlib.Core.Bool.{Bool, true, false, ◌||◌}
use mathlib.Core.List.{List, [], ◌∷◌, ◌++◌}
use mathlib.Core.Option.{some}
use native.Mathlib.Omega.{arith}
use inter_fire.Prelude.Lists.{length, filter, contains, IsNodup}
use inter_fire.Prelude.Tests.{if◌then◌else◌, Eq, ==_iff, leb}
use inter_fire.Prelude.Maps.{
  Map, get, remove, insert, has, keys, get-remove, get-insert, length-remove-lt,
  keys-remove-IsNodup, keys-insert-IsNodup,
}

module _ {ℓ} {K : Type ℓ} ⦃e : Eq K⦄ where
  pub contains-append :
      (k : K) (xs ys : List K) → contains k (xs ++ ys) ≡ (contains k xs || contains k ys)
  contains-append k [] ys = refl
  contains-append k (x ∷ xs) ys = ground (arith, contains-append k xs ys)

  pub IsNodup-push :
      (k : K) (xs : List K) → IsNodup xs → contains k xs ≡ false → IsNodup (xs ++ k ∷ [])
  IsNodup-push k [] h c = (refl, tt)
  IsNodup-push k (x ∷ xs) h c =
      ground (arith, contains-append x xs (k ∷ []), IsNodup-push k xs h.1, ==_iff k x, ==_iff x k)

  pub contains-filter :
      (p : K → Bool) (k : K) (xs : List K)
      → contains k (filter p xs) ≡ (if p k then contains k xs else false)
  contains-filter p k [] = ground arith
  contains-filter p k (x ∷ xs) = ground (arith, contains-filter p k xs, ==_iff k x)

  pub IsNodup-filter : (p : K → Bool) (xs : List K) → IsNodup xs → IsNodup (filter p xs)
  IsNodup-filter p [] h = tt
  IsNodup-filter p (x ∷ xs) h = ground (arith, IsNodup-filter p xs h.1, contains-filter p x xs)

module _ {ℓ κ} {K : Type ℓ} {V : Type κ} ⦃e : Eq K⦄ where
  unfoldable pub evict : ℕ → Map K V → List K → Map K V × List K
  evict cap m [] = if leb cap (length m) then ([], []) else (m, [])
  evict cap m (oldest ∷ order) =
      let rest = evict cap (remove oldest m) order in
      if leb cap (length m) then rest else (m, oldest ∷ order)

  -- The keys are told apart in the map and in `order`, and each key of the map stands in `order`.
  pub record IsCovered (m : Map K V) (order : List K) : Type (ℓ ⊔ κ) where
    pub unique : IsNodup (keys m)
    pub once : IsNodup order
    pub covers : (k : K) → has k m ≡ true → contains k order ≡ true

  -- Besides, `order` holds no other key.
  pub record IsOrdered (m : Map K V) (order : List K) : Type (ℓ ⊔ κ) where
    pub covered : IsCovered m order
    pub live : (k : K) → contains k order ≡ true → has k m ≡ true

  pub length-evict :
      (cap : ℕ) (m : Map K V) (order : List K) → 0 < cap → length (evict cap m order).0 < cap
  unfolding evict
  length-evict cap m [] h = ground arith
  length-evict cap m (o ∷ os) h = ground (arith, length-evict cap (remove o m) os h)

  pub get-evict :
      (cap : ℕ) (m : Map K V) (order : List K) (k : K) (v : V)
      → get k (evict cap m order).0 ≡ some v
      → get k m ≡ some v
  unfolding evict get
  get-evict cap m [] k v h = ground arith
  get-evict cap m (o ∷ os) k v h =
      ground (arith, get-evict cap (remove o m) os k v, get-remove o k m)

  -- Below capacity nothing is evicted.
  pub evict-room :
      (cap : ℕ) (m : Map K V) (order : List K) → length m < cap → evict cap m order ≡ (m, order)
  unfolding evict
  evict-room cap m [] h = ground arith
  evict-room cap m (o ∷ os) h = ground arith

  IsCovered-empty : IsCovered [] []
  unfolding get
  IsCovered-empty = record { unique = tt; once = tt; covers = λ k h. h }

  IsCovered-pop :
      (o : K) (m : Map K V) (os : List K) → IsCovered m (o ∷ os) → IsCovered (remove o m) os
  IsCovered-pop o m os w = record {
    unique = keys-remove-IsNodup o m w.unique;
    once = w.once.1;
    covers = λ k. grind (arith, get-remove o k m, w.covers k, ==_iff k o, ==_iff o k);
  }

  pub IsOrdered-pop :
      (o : K) (m : Map K V) (os : List K) → IsOrdered m (o ∷ os) → IsOrdered (remove o m) os
  IsOrdered-pop o m os w = record {
    covered = IsCovered-pop o m os w.covered;
    live = λ k. grind (arith, get-remove o k m, w.live k, w.covered.once, ==_iff k o, ==_iff o k);
  }

  pub IsOrdered-empty : IsOrdered [] []
  unfolding get
  IsOrdered-empty = record { covered = IsCovered-empty; live = λ k h. h }

  pub update-IsCovered :
      (k : K) (v : V) (m : Map K V) (order : List K)
      → has k m ≡ true
      → IsCovered m order
      → IsCovered (insert k v m) order
  update-IsCovered k v m order old w = record {
    unique = keys-insert-IsNodup k v m w.unique;
    once = w.once;
    covers = λ j. grind (arith, get-insert k j v m, w.covers j, ==_iff k j);
  }

  either :
      (b : Bool) (p q : Map K V × List K)
      → IsCovered p.0 p.1
      → IsCovered q.0 q.1
      → IsCovered (if b then p else q).0 (if b then p else q).1
  either true p q h k = h
  either false p q h k = k

  either-IsOrdered :
      (b : Bool) (p q : Map K V × List K)
      → IsOrdered p.0 p.1
      → IsOrdered q.0 q.1
      → IsOrdered (if b then p else q).0 (if b then p else q).1
  either-IsOrdered true p q h k = h
  either-IsOrdered false p q h k = k

  pub evict-IsCovered :
      (cap : ℕ) (m : Map K V) (order : List K)
      → IsCovered m order
      → IsCovered (evict cap m order).0 (evict cap m order).1
  unfolding evict
  evict-IsCovered cap m [] w = either (leb cap (length m)) ([], []) (m, []) IsCovered-empty w
  evict-IsCovered cap m (o ∷ os) w =
      either (leb cap (length m)) (evict cap (remove o m) os) (m, o ∷ os)
        (evict-IsCovered cap (remove o m) os (IsCovered-pop o m os w)) w

  pub evict-IsOrdered :
      (cap : ℕ) (m : Map K V) (order : List K)
      → IsOrdered m order
      → IsOrdered (evict cap m order).0 (evict cap m order).1
  unfolding evict
  evict-IsOrdered cap m [] w =
      either-IsOrdered (leb cap (length m)) ([], []) (m, []) IsOrdered-empty w
  evict-IsOrdered cap m (o ∷ os) w =
      either-IsOrdered (leb cap (length m)) (evict cap (remove o m) os) (m, o ∷ os)
        (evict-IsOrdered cap (remove o m) os (IsOrdered-pop o m os w)) w

  -- At capacity exactly the oldest entry goes.
  pub evict-full :
      (m : Map K V) (o : K) (os : List K)
      → has o m ≡ true
      → evict (length m) m (o ∷ os) ≡ (remove o m, os)
  unfolding evict
  evict-full m o os h =
      ground (arith, length-remove-lt o m h, evict-room (length m) (remove o m) os)

  -- A new key is pushed behind the others.
  pub push-IsCovered :
      (k : K) (v : V) (m : Map K V) (order : List K)
      → contains k order ≡ false
      → IsCovered m order
      → IsCovered (insert k v m) (order ++ k ∷ [])
  push-IsCovered k v m order new w = record {
    unique = keys-insert-IsNodup k v m w.unique;
    once = IsNodup-push k order w.once new;
    covers = λ j. grind (
      arith,
      get-insert k j v m,
      contains-append j order (k ∷ []),
      w.covers j,
      ==_iff j k,
      ==_iff k j,
    );
  }

  pub push-IsOrdered :
      (k : K) (v : V) (m : Map K V) (order : List K)
      → has k m ≡ false
      → IsOrdered m order
      → IsOrdered (insert k v m) (order ++ k ∷ [])
  push-IsOrdered k v m order new w = record {
    covered = push-IsCovered k v m order (ground (arith, w.live k)) w.covered;
    live = λ j. grind (
      arith,
      get-insert k j v m,
      contains-append j order (k ∷ []),
      w.live j,
      ==_iff j k,
      ==_iff k j,
    );
  }

  -- An entry of a present key is written in place.
  pub update-IsOrdered :
      (k : K) (v : V) (m : Map K V) (order : List K)
      → has k m ≡ true
      → IsOrdered m order
      → IsOrdered (insert k v m) order
  update-IsOrdered k v m order old w = record {
    covered = update-IsCovered k v m order old w.covered;
    live = λ j. grind (arith, get-insert k j v m, w.live j);
  }
