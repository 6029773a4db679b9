-- ===== src/Prelude/Stores.antt =====
-- Writing an entry into a bounded table: in place when the key is known, and otherwise behind the
-- eviction of the oldest entries.
use Prim.Native.Nat.{ℕ, ◌≤◌, ◌<◌}
use mathlib.Core.Path.{◌≡◌, refl}
use mathlib.Core.Logic.{◌⊎◌, inl, inr, ◌≢◌}
use mathlib.Core.Bool.{true, false}
use mathlib.Core.List.{List, [], ◌∷◌, ◌++◌}
use mathlib.Core.Option.{Option, none, some}
use native.Mathlib.Omega.{arith}
use inter_fire.Prelude.Lists.{length}
use inter_fire.Prelude.Tests.{if◌then◌else◌, Eq, ◌==◌, ==_iff, Bool-cases}
use inter_fire.Prelude.Maps.{
  Map, get, remove, insert, has, get-insert, length-insert-le, length-insert-has,
}
use inter_fire.Prelude.Evict.{
  evict, IsOrdered, evict-IsOrdered, push-IsOrdered, update-IsOrdered, length-evict, get-evict,
  evict-room, evict-full,
}

module _ {ℓ κ} {K : Type ℓ} {V : Type κ} ⦃e : Eq K⦄ where
  unfoldable pub store : ℕ → K → V → Map K V → List K → Map K V × List K
  store cap k v m order =
      let (m', order') = evict cap m order in
      if has k m then (insert k v m, order) else (insert k v m', order' ++ k ∷ [])

module _ {ℓ κ} {K : Type ℓ} {V : Type κ} ⦃e : Eq K⦄ (cap : ℕ) (k : K) (v : V) (m : Map K V) where
  pub evict-has : (order : List K) → has k m ≡ false → has k (evict cap m order).0 ≡ false
  evict-has order new = go (get k (evict cap m order).0) refl
    where
      go : (o : Option V) → get k (evict cap m order).0 ≡ o → has k (evict cap m order).0 ≡ false
      go none h = ground arith
      go (some w) h = ground (arith, get-evict cap m order k w h)

  pub store-IsOrdered :
      (order : List K)
      → IsOrdered m order
      → IsOrdered (store cap k v m order).0 (store cap k v m order).1
  unfolding store
  store-IsOrdered order w = elim (Bool-cases (has k m)) [
    | inl old ↦ rw old (update-IsOrdered k v m order old w)
    | inr new ↦ rw new (
        push-IsOrdered k v (evict cap m order).0 (evict cap m order).1 (evict-has order new)
          (evict-IsOrdered cap m order w))
  ]

  pub length-store :
      (order : List K) → 0 < cap → length m ≤ cap → length (store cap k v m order).0 ≤ cap
  unfolding store
  length-store order p h = ground (
    arith,
    length-evict cap m order p,
    length-insert-le k v (evict cap m order).0,
    length-insert-has k v m,
  )

  pub get-store_self : (order : List K) → get k (store cap k v m order).0 ≡ some v
  unfolding store
  get-store_self order =
      ground (arith, get-insert k k v m, get-insert k k v (evict cap m order).0, ==_iff k k)

  pub get-store_other :
      (order : List K) (j : K) (w : V)
      → k ≢ j
      → get j (store cap k v m order).0 ≡ some w
      → get j m ≡ some w
  unfolding store
  get-store_other order j w ne h = ground (
    arith,
    get-insert k j v m,
    get-insert k j v (evict cap m order).0,
    ==_iff k j,
    get-evict cap m order j w,
  )

  pub get-store_room :
      (order : List K) (j : K)
      → (has k m ≡ true) ⊎ (length m < cap)
      → get j (store cap k v m order).0 ≡ (if k == j then some v else get j m)
  unfolding store
  get-store_room order j h = ground (arith, get-insert k j v m, evict-room cap m order)

  pub store_full :
      (oldest : K) (rest : List K)
      → length m ≡ cap
      → has oldest m ≡ true
      → has k m ≡ false
      → store cap k v m (oldest ∷ rest) ≡ (insert k v (remove oldest m), rest ++ k ∷ [])
  unfolding store
  store_full oldest rest full there new = rw (← full) (rw (evict-full m oldest rest there, new))
