-- ===== src/Observability/Collector/Tests.antt =====
-- internal/observability/collector.go: three increments of two counters.
use mathlib.Core.Quot
use mathlib.Core.Quot.{Quot}
use lp.Base.{ℕ, List, [], ◌∷◌, ◌≡◌, refl, arith}
use lp.Base.Dict.{Dict, IsOrder, single-IsOrder}
use lp.Base.Dict
use lp.Observability.Collector.{Collector, new_collector, increment, snapshot, counters_or_new}
use lp.Observability.Collector.Counts.{
  Key, SameIncrements, Increments, count, times, shown, increments, get-snapshot,
}

abbrev hits : List Key
hits = ("api", "hit") ∷ ("ws", "hit") ∷ ("api", "hit") ∷ []

-- The same, by goroutines that came in another order
abbrev hits_done : Increments
hits_done = Quot.mk (("api", "hit") ∷ ("api", "hit") ∷ ("ws", "hit") ∷ [])

abbrev counted : Collector ℕ
counted = increments hits new_collector

same_hits : SameIncrements hits (("api", "hit") ∷ ("api", "hit") ∷ ("ws", "hit") ∷ [])
unfolding count
same_hits component name = ground arith

abbrev one_counter : Dict ℕ
one_counter = record { entries = ("hit", 2) ∷ [] }

counters_of_api : counters_or_new (Dict.get counted.counters "api") ≡ one_counter
unfolding increments new_collector increment Dict.get Dict.put Dict.empty
counters_of_api = refl

two_hits : IsOrder (("hit", 2) ∷ []) (counters_or_new (Dict.get counted.counters "api"))
two_hits = rw counters_of_api (single-IsOrder "hit" 2)

get-snapshot_example :
    Dict.get (snapshot (("hit", 2) ∷ []) "api" counted 0).counters "hit"
    ≡ shown (times "api" "hit" hits_done)
get-snapshot_example =
    get-snapshot hits hits_done "api" "hit" (("hit", 2) ∷ []) 0 (Quot.sound same_hits) two_hits
