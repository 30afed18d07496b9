-- ===== src/Observability/Collector/Counts.antt =====
-- internal/observability/collector.go: what the counters count. The abstract view of a collector's
-- increments is the bag of the counters' names: the order in which goroutines increment is forgotten.
use mathlib.Core.Quot
use mathlib.Core.Quot.{Quot, Quot-set}
use native.Mathlib.Nat.{ℕ_set}
use lp.Base.{
  ℕ, ◌+◌, ◌%◌, ◌^◌, ◌<◌, ◌==◌, String, Bool, List, [], ◌∷◌, Option, none, some, ◌≡◌, refl, ◌∙◌, ap,
  ◌&&◌, str_eq, str_eq-cases, eq_refl, eq_iff, inl, inr, arith, if◌then◌else◌,
}
use lp.Base.Dict.{Dict, IsOrder, get-put, get-empty}
use lp.Base.Dict
use lp.Observability.Tracker.{add_one}
use lp.Observability.Collector.{
  Collector, new_collector, increment, snapshot, counter_or_new, counters_or_new,
}
use lp.Observability.Collector.Copies.{get-copy_counters}

-- A counter's component and name
abbrev pub Key : Type 0
Key = String × String

abbrev pub is_key : String → String → Key → Bool
is_key component name k = str_eq k.0 component && str_eq k.1 name

-- How often a counter is incremented
unfoldable pub count : String → String → List Key → ℕ
count component name [] = 0
count component name (k ∷ ks) = (if is_key component name k then 1 else 0) + count component name ks

-- The same increments, in any order
abbrev pub SameIncrements : List Key → List Key → Type 0
SameIncrements ks js = (component name : String) → count component name ks ≡ count component name js

abbrev pub Increments : Type 0
Increments = Quot SameIncrements

unfoldable pub times : String → String → Increments → ℕ
times component name = Quot.lift ℕ_set (count component name) (λ ks js same. same component name)

-- The counter that a snapshot shows after `n` increments: it wraps at 2 ^ 64.
abbrev pub shown : ℕ → Option ℕ
shown n = if n == 0 then none else some (n % 2 ^ 64)

-- `n` more increments of a counter
abbrev raised_by : ℕ → Option ℕ → Option ℕ
raised_by n old = if n == 0 then old else some ((counter_or_new old + n) % 2 ^ 64)

raised_by-none : (n : ℕ) → raised_by n none ≡ shown n
raised_by-none n = ground arith

module _ {W : Type 0} where
  -- Increment, called for one key after the other
  unfoldable pub increments : List Key → Collector W → Collector W
  increments [] c = c
  increments (k ∷ ks) c = increments ks (increment k.0 k.1 c)

  abbrev counter : String → String → Collector W → Option ℕ
  counter component name c = Dict.get (counters_or_new (Dict.get c.counters component)) name

  counter-increment :
      (k : Key) (component name : String) (c : Collector W)
      → counter component name (increment k.0 k.1 c) ≡ (
          if is_key component name k
          then some (add_one (counter_or_new (counter component name c)))
          else counter component name c)
  unfolding increment
  counter-increment k component name c = elim (str_eq-cases k.0 component) [
    | inl same ↦ rw (← same) (
        ground (
          arith,
          eq_refl k.0,
          get-put c.counters k.0 k.0 raised,
          get-put mine k.1 name (add_one (counter_or_new (Dict.get mine k.1))),
          eq_iff k.1 name,
        ))
    | inr other ↦ ground (arith, other, get-put c.counters k.0 component raised)
  ]
    where
      mine : Dict ℕ
      mine = counters_or_new (Dict.get c.counters k.0)

      raised : Dict ℕ
      raised = Dict.put mine k.1 (add_one (counter_or_new (Dict.get mine k.1)))

  counter-increments :
      (component name : String) (ks : List Key) (c : Collector W)
      → counter_or_new (counter component name c) < 2 ^ 64
      → counter component name (increments ks c)
        ≡ raised_by (count component name ks) (counter component name c)
  unfolding increments count
  counter-increments component name [] c small = refl
  counter-increments component name (k ∷ ks) c small =
      let step = counter-increment k component name c in
      counter-increments component name ks (increment k.0 k.1 c) (ground (arith, step))
      ∙ ground (arith, step)

  -- A collector that has counted nothing before, and then the increments `ks`, made in any order: for
  -- whatever order it visits the counters of the component in, a snapshot has no counter of the name
  -- if none of the increments was for it, and else its value is their number, up to 2 ^ 64. Which of
  -- the orders it was does not show.
  pub get-snapshot :
      (ks : List Key) (done : Increments) (component name : String) (order : List (String × ℕ))
      (w : W)
      → Quot.mk ks ≡ done
      → IsOrder order (counters_or_new (Dict.get (increments ks new_collector).counters component))
      → Dict.get (snapshot order component (increments ks new_collector) w).counters name
        ≡ shown (times component name done)
  unfolding snapshot new_collector times
  get-snapshot ks done component name order w same is_order =
      get-copy_counters order _ name is_order
      ∙ counter-increments component name ks new_collector none_yet
      ∙ ap (raised_by (count component name ks)) new
      ∙ raised_by-none (count component name ks)
      ∙ ap shown (ap (times component name) same)
    where
      new : counter component name (new_collector {W = W}) ≡ none
      new = ground (arith, get-empty {V = Dict ℕ} component, get-empty {V = ℕ} name)

      none_yet : counter_or_new (counter component name (new_collector {W = W})) < 2 ^ 64
      none_yet = ground (arith, new)
