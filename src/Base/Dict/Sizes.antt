-- ===== src/Base/Dict/Sizes.antt =====
-- Go's maps as sets of keys: a map that holds all entries of another and has the same size is equal
-- to it.
use Prim.Native.String.{String}
use Prim.Native.Nat.{◌+◌, ◌≤◌}
use mathlib.Core.Path.{◌≡◌, refl, sym, ◌∙◌, ap, subst}
use mathlib.Core.Logic.{inl, inr}
use mathlib.Core.List.{List, [], ◌∷◌}
use mathlib.Core.Option.{none, some}
use native.Mathlib.Omega.{arith}
use lp.Base.Tests.{str_eq, str_eq-cases, eq_iff, eq_refl, if◌then◌else◌}
use lp.Base.Lists.{length}
use lp.Base.Dict.{Dict, empty, get, put, size, lookup, without, lookup-without}

module _ {V : Type 0} where
  -- Each key stands once in the list.
  abbrev pub AreUnique : List (String × V) → Type 0
  AreUnique [] = Unit {0}
  AreUnique ((k, v) ∷ m) = (lookup k m ≡ none) × AreUnique m

  AreUnique-without : (k : String) (m : List (String × V)) → AreUnique m → AreUnique (without k m)
  unfolding without
  AreUnique-without k [] u = tt
  AreUnique-without k ((j, v) ∷ m) (h, u) =
      ground (arith, AreUnique-without k m u, lookup-without k j m)

  length-without_le : (k : String) (m : List (String × V)) → length (without k m) ≤ length m
  unfolding without
  length-without_le k [] = omega arith
  length-without_le k ((j, v) ∷ m) = ground (arith, length-without_le k m)

  without_missing : (k : String) (m : List (String × V)) → lookup k m ≡ none → without k m ≡ m
  unfolding lookup without
  without_missing k [] h = refl
  without_missing k ((j, v) ∷ m) h = ground (arith, without_missing k m)

  length-without :
      (k : String) (v : V) (m : List (String × V))
      → AreUnique m
      → lookup k m ≡ some v
      → length (without k m) + 1 ≡ length m
  unfolding lookup without
  length-without k v [] u h = absurd (ground arith)
  length-without k v ((j, w) ∷ m) (new, u) h =
      ground (arith, eq_iff j k, length-without k v m u, without_missing j m new)

  lookup_nil : (m : List (String × V)) (k : String) → length m ≡ 0 → lookup k m ≡ none
  unfolding lookup
  lookup_nil [] k h = refl
  lookup_nil (e ∷ m) k h = absurd (omega arith)

  none-ne-some : {v : V} → none ≡ some v → ⊥
  none-ne-some h = cc

  lookup-cons :
      (k j : String) (v : V) (m : List (String × V))
      → lookup j ((k, v) ∷ m) ≡ (if str_eq k j then some v else lookup j m)
  unfolding lookup
  lookup-cons k j v m = refl

  lookup-first : (k : String) (v : V) (m : List (String × V)) → lookup k ((k, v) ∷ m) ≡ some v
  lookup-first k v m = rw (lookup-cons k k v m, eq_refl k) refl

  lookup-without_self : (k : String) (m : List (String × V)) → lookup k (without k m) ≡ none
  lookup-without_self k m = rw (lookup-without k k m, eq_refl k) refl

  -- The part of `o` without the first key of `m` agrees with the rest of `m` where `o` does with `m`.
  agrees_rest :
      (k : String) (v : V) (m o : List (String × V)) (j : String)
      → lookup k m ≡ none
      → lookup j ((k, v) ∷ m) ≡ lookup j o
      → lookup j m ≡ lookup j (without k o)
  agrees_rest k v m o j new agrees = elim (str_eq-cases k j) [
    | inl same ↦
        subst (λ x. lookup x m ≡ lookup x (without k o)) same (new ∙ sym (lookup-without_self k o))
    | inr other ↦ ground (arith, lookup-cons k j v m, lookup-without k j o, other, agrees)
  ]

  agrees_cons :
      (k : String) (v : V) (m o : List (String × V)) (j : String)
      → lookup k o ≡ some v
      → lookup j (without k o) ≡ lookup j m
      → lookup j o ≡ lookup j ((k, v) ∷ m)
  agrees_cons k v m o j here agrees = elim (str_eq-cases k j) [
    | inl same ↦
        subst (λ x. lookup x o ≡ lookup x ((k, v) ∷ m)) same (here ∙ sym (lookup-first k v m))
    | inr other ↦ ground (arith, lookup-cons k j v m, lookup-without k j o, other, agrees)
  ]

  holds_rest :
      (k : String) (v : V) (m o : List (String × V))
      → lookup k m ≡ none
      → ((j : String) (w : V) → lookup j ((k, v) ∷ m) ≡ some w → lookup j o ≡ some w)
      → (j : String) (w : V) → lookup j m ≡ some w
      → lookup j (without k o) ≡ some w
  holds_rest k v m o new holds j w h = elim (str_eq-cases k j) [
    | inl same ↦ absurd (none-ne-some (sym new ∙ ap (λ x. lookup x m) same ∙ h))
    | inr other ↦
        ground (arith, lookup-without k j o, other, holds j w (rw (lookup-cons k j v m, other) h))
  ]

  lookup_eq :
      (m o : List (String × V))
      → AreUnique m
      → AreUnique o
      → length o ≡ length m
      → ((j : String) (w : V) → lookup j m ≡ some w → lookup j o ≡ some w)
      → (j : String) → lookup j o ≡ lookup j m
  lookup_eq [] o um uo e holds j = lookup_nil o j e ∙ sym (lookup_nil [] j refl)
  lookup_eq ((k, v) ∷ m) o (new, um) uo e holds j =
      let here : lookup k o ≡ some v = holds k v (lookup-first k v m) in
      agrees_cons k v m o j here (
        lookup_eq m (without k o) um (AreUnique-without k o uo)
          (omega (arith, length-without k v o uo here)) (holds_rest k v m o new holds) j)

  pub record IsUnique (d : Dict V) : Type 0 where
    pub unique : AreUnique d.entries

  pub empty-IsUnique : IsUnique empty
  unfolding empty
  empty-IsUnique = record { unique = tt }

  pub put-IsUnique : (d : Dict V) (k : String) (v : V) → IsUnique d → IsUnique (put d k v)
  unfolding put
  put-IsUnique d k v u = record {
    unique = (lookup-without_self k d.entries, AreUnique-without k d.entries u.unique);
  }

  -- A map that holds the entries of another of the same size equals it.
  pub get-eq_of_size :
      (d o : Dict V)
      → IsUnique d
      → IsUnique o
      → size o ≡ size d
      → ((k : String) (v : V) → get d k ≡ some v → get o k ≡ some v)
      → (k : String) → get o k ≡ get d k
  unfolding get size
  get-eq_of_size d o ud uo e holds k = lookup_eq d.entries o.entries ud.unique uo.unique e holds k

  length-eq :
      (m o : List (String × V))
      → AreUnique m
      → AreUnique o
      → ((k : String) → lookup k m ≡ lookup k o)
      → length m ≡ length o
  length-eq [] [] um uo e = refl
  length-eq [] ((k, v) ∷ o) um uo e =
      absurd (none-ne-some {v = v} (sym (lookup_nil [] k refl) ∙ e k ∙ lookup-first k v o))
  length-eq ((k, v) ∷ m) o (new, um) uo e =
      let here : lookup k o ≡ some v = sym (e k) ∙ lookup-first k v m in
      omega (
        arith,
        length-without k v o uo here,
        length-eq m (without k o) um (AreUnique-without k o uo)
            (λ j. agrees_rest k v m o j new (e j)),
      )

  -- Equal maps have the same size.
  pub size-eq :
      (d o : Dict V)
      → IsUnique d
      → IsUnique o
      → ((k : String) → get d k ≡ get o k)
      → size d ≡ size o
  unfolding get size
  size-eq d o ud uo e = length-eq d.entries o.entries ud.unique uo.unique e
