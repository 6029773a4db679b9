-- ===== src/Prelude/Maps.antt =====
-- A hash map as an association list. Removal takes every entry of the key, so that the laws of
-- `get` hold with no side condition; `length` counts the entries.

use inter_fire.Prelude.Lists.{length, contains, IsNodup}
use inter_fire.Prelude.Tests.{if◌then◌else◌, Eq, ◌==◌, ==_iff}
use Prim.Native.Nat.{suc, ◌≤◌, ◌<◌}
use mathlib.Core.Path.{◌≡◌, refl}
use mathlib.Core.Bool.{Bool, true, false}
use mathlib.Core.List.{List, [], ◌∷◌}
use mathlib.Core.Option.{Option, none, some}
use native.Mathlib.Omega.{arith}

abbrev pub Map {ℓ κ} : Type ℓ → Type κ → Type (ℓ ⊔ κ)
Map K V = List (K × V)

abbrev pub is_some {ℓ} : {A : Type ℓ} → Option A → Bool
is_some none = false
is_some (some _) = true

module _ {ℓ κ} {K : Type ℓ} {V : Type κ} ⦃e : Eq K⦄ where
  unfoldable pub get : K → Map K V → Option V
  get k [] = none
  get k ((j, v) ∷ m) = if j == k then some v else get k m

  unfoldable pub remove : K → Map K V → Map K V
  remove k [] = []
  remove k ((j, v) ∷ m) = let rest = remove k m in if j == k then rest else (j, v) ∷ rest

  unfoldable pub insert : K → V → Map K V → Map K V
  insert k v m = (k, v) ∷ remove k m

  -- `HashMap::retain`
  unfoldable pub retain : (K → V → Bool) → Map K V → Map K V
  retain p [] = []
  retain p ((j, v) ∷ m) = let rest = retain p m in if p j v then (j, v) ∷ rest else rest

  -- `contains_key`
  abbrev pub has : K → Map K V → Bool
  has k m = is_some (get k m)

  pub get-remove : (k j : K) (m : Map K V) → get j (remove k m) ≡ (if k == j then none else get j m)
  unfolding get remove
  get-remove k j [] = ground arith
  get-remove k j ((i, v) ∷ m) = ground (arith, get-remove k j m, ==_iff i k, ==_iff i j, ==_iff k j)

  pub get-insert :
      (k j : K) (v : V) (m : Map K V) → get j (insert k v m) ≡ (if k == j then some v else get j m)
  unfolding get insert
  get-insert k j v m = ground (arith, get-remove k j m)

  pub length-remove-le : (k : K) (m : Map K V) → length (remove k m) ≤ length m
  unfolding remove
  length-remove-le k [] = ground arith
  length-remove-le k ((i, v) ∷ m) = ground (arith, length-remove-le k m)

  pub length-remove-lt : (k : K) (m : Map K V) → has k m ≡ true → length (remove k m) < length m
  unfolding remove get
  length-remove-lt k [] h = ground arith
  length-remove-lt k ((i, v) ∷ m) h =
      ground (arith, length-remove-lt k m, length-remove-le k m, ==_iff i k)

  pub length-insert-le : (k : K) (v : V) (m : Map K V) → length (insert k v m) ≤ suc (length m)
  unfolding insert
  length-insert-le k v m = ground (arith, length-remove-le k m)

  -- An update in place does not grow the map.
  pub length-insert-has :
      (k : K) (v : V) (m : Map K V) → has k m ≡ true → length (insert k v m) ≤ length m
  unfolding insert
  length-insert-has k v m h = ground (arith, length-remove-lt k m h)

  pub length-retain-le : (p : K → V → Bool) (m : Map K V) → length (retain p m) ≤ length m
  unfolding retain
  length-retain-le p [] = ground arith
  length-retain-le p ((i, v) ∷ m) = ground (arith, length-retain-le p m)

  -- The keys, and that no key has two entries.
  abbrev pub keys : Map K V → List K
  keys [] = []
  keys ((k, v) ∷ m) = k ∷ keys m

  pub contains-keys : (k : K) (m : Map K V) → contains k (keys m) ≡ has k m
  unfolding get
  contains-keys k [] = refl
  contains-keys k ((j, v) ∷ m) = ground (arith, contains-keys k m, ==_iff k j, ==_iff j k)

  pub keys-remove-IsNodup : (k : K) (m : Map K V) → IsNodup (keys m) → IsNodup (keys (remove k m))
  unfolding remove
  keys-remove-IsNodup k [] h = h
  keys-remove-IsNodup k ((j, v) ∷ m) h = ground (
    arith,
    keys-remove-IsNodup k m h.1,
    contains-keys j (remove k m),
    contains-keys j m,
    get-remove k j m,
  )

  pub keys-insert-IsNodup :
      (k : K) (v : V) (m : Map K V) → IsNodup (keys m) → IsNodup (keys (insert k v m))
  unfolding insert
  keys-insert-IsNodup k v m h =
      ground (
        arith,
        keys-remove-IsNodup k m h,
        contains-keys k (remove k m),
        get-remove k k m,
        ==_iff k k,
      )

  -- Of the entry that is found, `retain` keeps it or not.
  pub get-retain :
      (p : K → V → Bool) (k : K) (v : V) (m : Map K V)
      → IsNodup (keys m)
      → get k (retain p m) ≡ some v
      → (get k m ≡ some v) × (p k v ≡ true)
  unfolding get retain
  get-retain p k v [] n h = ground arith
  get-retain p k v ((j, w) ∷ m) n h =
      ground (arith, get-retain p k v m n.1, contains-keys k m, ==_iff j k)
