-- ===== src/Observability/Collector/Copies.antt =====
-- internal/observability/collector.go: the copy loop of Snapshot, in whatever order it runs.
use lp.Base.{
  ℕ, String, List, [], ◌∷◌, some, Elem, inl, inr, ◌⊎◌, ◌≡◌, sym, ◌∙◌, ap, Option-cases,
  str_eq-cases, eq_iff, arith,
}
use lp.Base.Dict.{Dict, IsOrder, get-put, get-empty}
use lp.Base.Dict
use lp.Observability.Collector.{copy_counters}

pair : (name k : String) (v w : ℕ) → name ≡ k → v ≡ w → ◌≡◌ {A = String × ℕ} (name, v) (k, w)
pair name k v w e f = cc

put_same :
    (out : Dict ℕ) (k name : String) (w v : ℕ)
    → k ≡ name
    → Dict.get (Dict.put out k w) name ≡ some v
    → v ≡ w
put_same out k name w v same h = ground (arith, get-put out k name w, eq_iff k name)

-- What the copy holds is in the list, or was there before.
copied :
    (order : List (String × ℕ)) (out : Dict ℕ) (name : String) (v : ℕ)
    → Dict.get (copy_counters order out) name ≡ some v
    → Elem (name, v) order ⊎ (Dict.get out name ≡ some v)
unfolding copy_counters
copied [] out name v h = inr h
copied ((k, w) ∷ rest) out name v h = elim (copied rest (Dict.put out k w) name v h) [
  | inl later ↦ inl (inr later)
  | inr here ↦ elim (str_eq-cases k name) [
    | inl same ↦ inl (inl (pair name k v w (sym same) (put_same out k name w v same here)))
    | inr other ↦ inr (sym (rw other at (get-put out k name w)) ∙ here)
  ]
]

-- What was put is still there, under the same key, at the end of the loop.
still_held :
    (order : List (String × ℕ)) (out : Dict ℕ) (name : String) (v : ℕ)
    → Dict.get out name ≡ some v
    → (u : ℕ) × (Dict.get (copy_counters order out) name ≡ some u)
unfolding copy_counters
still_held [] out name v h = (v, h)
still_held ((k, w) ∷ rest) out name v h = elim (str_eq-cases k name) [
  | inl same ↦
      still_held rest (Dict.put out k w) name w
        (ground (arith, get-put out k name w, eq_iff k name))
  | inr other ↦ still_held rest (Dict.put out k w) name v (ground (arith, get-put out k name w))
]

held :
    (order : List (String × ℕ)) (out : Dict ℕ) (name : String) (v : ℕ)
    → Elem (name, v) order
    → (u : ℕ) × (Dict.get (copy_counters order out) name ≡ some u)
unfolding copy_counters
held [] out name v h = absurd h
held ((k, w) ∷ rest) out name v (inl e) =
    still_held rest (Dict.put out k w) name w
      (ground (arith, get-put out k name w, eq_iff k name, ap (λ (x : String × ℕ). x.0) e))
held ((k, w) ∷ rest) out name v (inr h) = held rest (Dict.put out k w) name v h

-- Visited in any order, the copy has the counters of the map.
pub get-copy_counters :
    (order : List (String × ℕ)) (m : Dict ℕ) (name : String)
    → IsOrder order m
    → Dict.get (copy_counters order Dict.empty) name ≡ Dict.get m name
get-copy_counters order m name is_order =
    elim (Option-cases (Dict.get (copy_counters order Dict.empty) name)) [
      | inl missing ↦ elim (Option-cases (Dict.get m name)) [
        | inl absent ↦ missing ∙ sym absent
        | inr (v, known) ↦
            let (u, there) = held order Dict.empty name v (is_order.complete name v known) in
            absurd (ground (arith, missing, there))
      ]
      | inr (u, there) ↦ elim (copied order Dict.empty name u there) [
        | inl listed ↦ there ∙ sym (is_order.sound name u listed)
        | inr old ↦ absurd (ground (arith, old, get-empty {V = ℕ} name))
      ]
    ]
