-- ===== src/Prelude/Sweep.antt =====
-- Collecting the keys of the entries that pass a test, and removing them one after the other.
use Prim.Native.Nat.{◌≤◌}
use mathlib.Core.Path.{◌≡◌, refl}
use mathlib.Core.Bool.{Bool, false}
use mathlib.Core.List.{List, [], ◌∷◌}
use mathlib.Core.Option.{Option, none, some}
use native.Mathlib.Omega.{arith}
use inter_fire.Prelude.Lists.{length, filter, contains, IsNodup}
use inter_fire.Prelude.Tests.{if◌then◌else◌, Eq, ==_iff}
use inter_fire.Prelude.Maps.{
  Map, get, remove, has, keys, get-remove, keys-remove-IsNodup, length-remove-le, contains-keys,
}
use inter_fire.Prelude.Evict.{IsCovered, IsOrdered, contains-filter, IsNodup-filter}

module _ {ℓ κ} {K : Type ℓ} {V : Type κ} where
  unfoldable pub keys_where : (K → V → Bool) → Map K V → List K
  keys_where p [] = []
  keys_where p ((k, v) ∷ m) = let rest = keys_where p m in if p k v then k ∷ rest else rest

  abbrev pub passes : (K → V → Bool) → K → Option V → Bool
  passes p k none = false
  passes p k (some v) = p k v

module _ {ℓ κ} {K : Type ℓ} {V : Type κ} ⦃e : Eq K⦄ where
  unfoldable pub remove_all : List K → Map K V → Map K V
  remove_all [] m = m
  remove_all (k ∷ ks) m = remove_all ks (remove k m)

  pub get-remove_all :
      (ks : List K) (j : K) (m : Map K V)
      → get j (remove_all ks m) ≡ (if contains j ks then none else get j m)
  unfolding remove_all
  get-remove_all [] j m = refl
  get-remove_all (k ∷ ks) j m =
      ground (arith, get-remove_all ks j (remove k m), get-remove k j m, ==_iff k j, ==_iff j k)

  keys-remove_all-IsNodup :
      (ks : List K) (m : Map K V) → IsNodup (keys m) → IsNodup (keys (remove_all ks m))
  unfolding remove_all
  keys-remove_all-IsNodup [] m u = u
  keys-remove_all-IsNodup (k ∷ ks) m u =
      keys-remove_all-IsNodup ks (remove k m) (keys-remove-IsNodup k m u)

  length-remove_all-le : (ks : List K) (m : Map K V) → length (remove_all ks m) ≤ length m
  unfolding remove_all
  length-remove_all-le [] m = omega arith
  length-remove_all-le (k ∷ ks) m =
      omega (arith, length-remove_all-le ks (remove k m), length-remove-le k m)

  pub contains-keys_where :
      (p : K → V → Bool) (k : K) (m : Map K V)
      → IsNodup (keys m)
      → contains k (keys_where p m) ≡ passes p k (get k m)
  unfolding keys_where get
  contains-keys_where p k [] u = refl
  contains-keys_where p k ((j, v) ∷ m) u = ground (
    arith,
    contains-keys_where p k m u.1,
    contains-keys j m,
    contains-keys k m,
    contains-keys_where p j m u.1,
    ==_iff k j,
    ==_iff j k,
  )

  -- Removing the entries that pass, in both the map and the order.
  unfoldable pub sweep : (K → V → Bool) → Map K V → List K → Map K V × List K
  sweep p m order = let m' = remove_all (keys_where p m) m in (m', filter (λ k. has k m') order)

  pub get-sweep :
      (p : K → V → Bool) (k : K) (m : Map K V) (order : List K)
      → IsNodup (keys m)
      → get k (sweep p m order).0 ≡ (if passes p k (get k m) then none else get k m)
  unfolding sweep
  get-sweep p k m order u =
      ground (arith, get-remove_all (keys_where p m) k m, contains-keys_where p k m u)

  pub length-sweep-le :
      (p : K → V → Bool) (m : Map K V) (order : List K) → length (sweep p m order).0 ≤ length m
  unfolding sweep
  length-sweep-le p m order = length-remove_all-le (keys_where p m) m

  pub sweep-IsOrdered :
      (p : K → V → Bool) (m : Map K V) (order : List K)
      → IsCovered m order
      → IsOrdered (sweep p m order).0 (sweep p m order).1
  unfolding sweep
  sweep-IsOrdered p m order w =
      let m' = remove_all (keys_where p m) m in
      record {
        covered = record {
          unique = keys-remove_all-IsNodup (keys_where p m) m w.unique;
          once = IsNodup-filter (λ k. has k m') order w.once;
          covers = λ k h. ground (
            arith,
            contains-filter (λ j. has j m') k order,
            get-remove_all (keys_where p m) k m,
            w.covers k,
          );
        };
        live = λ k h. ground (arith, contains-filter (λ j. has j m') k order);
      }
