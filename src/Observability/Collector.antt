-- ===== src/Observability/Collector.antt =====
-- internal/observability/collector.go. A stats provider reads the state `W` when it is called; a
-- counter is a `uint64`. The logger that a collector holds only prints, and is left out.
pub mod Copies
pub mod Counts
mod Tests
use lp.Base.{ℕ, String, List, [], ◌∷◌, Option, none, some}
use lp.Base.Dict.{Dict}
use lp.Base.Dict
use lp.Observability.Tracker.{Stats, add_one}

-- Snapshot
pub record Snapshot : Type 0 where
  pub component : String
  pub hooks : List Stats
  pub counters : Dict ℕ

-- Collector
pub record Collector (W : Type 0) : Type 0 where
  pub components : Dict (W → List Stats)
  pub counters : Dict (Dict ℕ)

-- The counter under a key, which Increment makes at 0 if it is missing.
abbrev pub counter_or_new : Option ℕ → ℕ
counter_or_new none = 0
counter_or_new (some n) = n

-- The counters of a component, which Increment makes if they are missing.
abbrev pub counters_or_new : Option (Dict ℕ) → Dict ℕ
counters_or_new none = Dict.empty
counters_or_new (some m) = m

-- The copy loop of Snapshot, over the map's entries in the order of its range.
unfoldable pub copy_counters : List (String × ℕ) → Dict ℕ → Dict ℕ
copy_counters [] out = out
copy_counters ((name, val) ∷ rest) out = copy_counters rest (Dict.put out name val)

-- One of the loops of All that gather the names of components.
unfoldable pub gather_names {ℓ} :
    {V : Type ℓ} → List (String × V) → Dict (Unit {0}) → Dict (Unit {0})
gather_names [] names = names
gather_names ((name, _) ∷ rest) names = gather_names rest (Dict.put names name tt)

module _ {W : Type 0} where
  -- NewCollector
  unfoldable pub new_collector : Collector W
  new_collector = record { components = Dict.empty; counters = Dict.empty }

  -- RegisterHooksSource
  unfoldable pub register_hooks_source : String → (W → List Stats) → Collector W → Collector W
  register_hooks_source component fn c = record c {
    components = Dict.put c.components component fn;
  }

  -- Increment
  unfoldable pub increment : String → String → Collector W → Collector W
  increment component name c =
      let m : Dict ℕ = counters_or_new (Dict.get c.counters component) in
      record c {
        counters =
            Dict.put c.counters component
              (Dict.put m name (add_one (counter_or_new (Dict.get m name))));
      }

  -- The value of one counter, 0 for a missing one: what Snapshot shows under its name.
  unfoldable pub counter_value : String → String → Collector W → ℕ
  counter_value component name c =
      counter_or_new (Dict.get (counters_or_new (Dict.get c.counters component)) name)

  -- The Hooks field of Snapshot
  unfoldable pub hooks_of : Option (W → List Stats) → W → List Stats
  hooks_of none w = []
  hooks_of (some fn) w = fn w

  -- Snapshot, given the order in which it visits the counters of the component.
  unfoldable pub snapshot : List (String × ℕ) → String → Collector W → W → Snapshot
  unfolding hooks_of copy_counters
  snapshot order component c w = record {
    component = component;
    hooks = hooks_of (Dict.get c.components component) w;
    counters = copy_counters order Dict.empty;
  }

  -- The set of names that All makes, given the orders of its two loops.
  unfoldable pub component_names :
      List (String × (W → List Stats)) → List (String × Dict ℕ) → Dict (Unit {0})
  unfolding gather_names
  component_names components counters = gather_names counters (gather_names components Dict.empty)

  -- All, given the order in which it visits the names, each with the order of its counters.
  unfoldable pub all : List (String × List (String × ℕ)) → Collector W → W → List Snapshot
  unfolding snapshot
  all [] c w = []
  all ((name, order) ∷ rest) c w = snapshot order name c w ∷ all rest c w
