-- ===== src/Base/Dict.antt =====
-- Go's `map[string]V`: an association list behind `get`, `put` and `delete`. Where the program
-- ranges over a map it takes the entries in any order, so a function that does so is given the
-- order, and `IsOrder` says that a list is one.
pub mod Sizes
use Prim.Native.String.{String}
use Prim.Native.Nat.{ℕ}
use mathlib.Core.Path.{◌≡◌, refl}
use mathlib.Core.Logic.{inl}
use mathlib.Core.List.{List, [], ◌∷◌}
use mathlib.Core.Option.{Option, none, some}
use native.Mathlib.Omega.{arith}
use lp.Base.Tests.{str_eq, eq_iff, eq_refl, if◌then◌else◌}
use lp.Base.Lists.{Elem, length}

module _ {ℓ} {V : Type ℓ} where
  pub lookup : String → List (String × V) → Option V
  lookup k [] = none
  lookup k ((j, v) ∷ m) = if str_eq j k then some v else lookup k m

  without : String → List (String × V) → List (String × V)
  without k [] = []
  without k ((j, v) ∷ m) = let rest = without k m in if str_eq j k then rest else (j, v) ∷ rest

  lookup-without :
      (k j : String) (m : List (String × V))
      → lookup j (without k m) ≡ (if str_eq k j then none else lookup j m)
  unfolding lookup without
  lookup-without k j [] = ground arith
  lookup-without k j ((i, v) ∷ m) =
      ground (arith, eq_iff i k, eq_iff i j, eq_iff k j, lookup-without k j m)

pub record Dict {ℓ} (V : Type ℓ) : Type ℓ where
  pub entries : List (String × V)

module _ {ℓ} {V : Type ℓ} where
  -- make(map[string]V)
  unfoldable pub empty : Dict V
  empty = record { entries = [] }

  -- v, ok := d[k]
  unfoldable pub get : Dict V → String → Option V
  unfolding lookup
  get d k = lookup k d.entries

  -- delete(d, k)
  unfoldable pub delete : Dict V → String → Dict V
  unfolding without
  delete d k = record { entries = without k d.entries }

  -- d[k] = v
  unfoldable pub put : Dict V → String → V → Dict V
  unfolding without
  put d k v = record { entries = (k, v) ∷ without k d.entries }

  -- len(d)
  unfoldable pub size : Dict V → ℕ
  size d = length d.entries

  pub get-delete :
      (d : Dict V) (k j : String) → get (delete d k) j ≡ (if str_eq k j then none else get d j)
  unfolding get delete
  get-delete d k j = lookup-without k j d.entries

  pub get-put :
      (d : Dict V) (k j : String) (v : V)
      → get (put d k v) j ≡ (if str_eq k j then some v else get d j)
  unfolding get put
  get-put d k j v = rw (lookup-without k j d.entries) (ground arith)

-- A visit of the map, in some order.
pub record IsOrder {V : Type 0} (order : List (String × V)) (d : Dict V) : Type 0 where
  pub sound : (k : String) (v : V) → Elem (k, v) order → get d k ≡ some v
  pub complete : (k : String) (v : V) → get d k ≡ some v → Elem (k, v) order

-- A map with one key
pub single-IsOrder :
    {V : Type 0} (k : String) (v : V) → IsOrder ((k, v) ∷ []) (record { entries = (k, v) ∷ [] })
unfolding get
single-IsOrder k v = record {
  sound = λ j w h. ground (arith, eq_iff k j, h);
  complete = λ j w h. inl (ground (arith, eq_iff k j));
}

pub get-empty {ℓ} : {V : Type ℓ} (k : String) → get (empty {V = V}) k ≡ none
unfolding get empty
get-empty k = refl

pub ruleset dict_laws = (get-empty, get-delete, get-put, eq_refl)
