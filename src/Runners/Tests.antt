-- ===== src/Runners/Tests.antt =====
-- The theorems about the runners at concrete inputs.
use lp.Base.{ℕ, ◌+◌, ◌%◌, ◌^◌, String, List, [], ◌∷◌, some, ◌≡◌, refl, arith}
use lp.Hooks
use lp.Hooks.{Registry}
use lp.Observability.Tracker.{HookTracker, recover_panic, track_emit}
use lp.Runners.Hooks.{Callback, returned, panicked, call_listener, call_listeners, fire}
use lp.Runners.Delivery.{deliver, count_panics, fire_lem}

-- A callback that notes its number, and one that panics after it has noted its number.
abbrev noting : ℕ → Callback String (List ℕ)
noting n now pipeline w = returned (n ∷ w)

abbrev failing : ℕ → Callback String (List ℕ)
failing n now pipeline w = panicked "boom" (n ∷ w)

abbrev three_callbacks : Registry (Callback String (List ℕ))
three_callbacks = record {
  label = "pipeline_started";
  listeners = noting 1 ∷ failing 2 ∷ noting 3 ∷ [];
}

-- Its handler notes 99.
abbrev tracker : HookTracker (List ℕ)
tracker = record {
  label = "pipeline_started";
  emit_count = 4;
  panics_caught = 0;
  on_panic = some (λ now name value w. 99 ∷ w);
}

fire_lem_example :
    ((fire three_callbacks 7 "build" tracker []).1
      ≡ deliver tracker.on_panic tracker.label 7 "build" three_callbacks.listeners [])
    × ((fire three_callbacks 7 "build" tracker []).0.emit_count ≡ (4 + 1) % 2 ^ 64)
    × ((fire three_callbacks 7 "build" tracker []).0.panics_caught
        ≡ (0 + count_panics tracker.on_panic tracker.label 7 "build" three_callbacks.listeners [])
          % 2 ^ 64)
fire_lem_example = fire_lem three_callbacks 7 "build" tracker [] (omega arith)

all_called : (fire three_callbacks 7 "build" tracker []).1 ≡ 3 ∷ 99 ∷ 2 ∷ 1 ∷ []
unfolding fire call_listeners call_listener Hooks.emit recover_panic track_emit
all_called = refl
