-- ===== src/Runners/Hooks.antt =====
-- internal/runners/hooks.go: the six lifecycle events, each a registry with its tracker. `W` is
-- the state that callbacks act on. A callback is given the time that time.Now() returns while it
-- runs, and returns or panics; a panic is caught, and the next callback runs.
use lp.Base.{ℕ, String, List, [], ◌∷◌, none, some}
use lp.Errors.{GoError}
use lp.Hooks.{Registry}
use lp.Hooks as Registries
use lp.Observability.Tracker.{HookTracker, Stats}
use lp.Observability.Tracker
use lp.Runners.Step.{Result}

-- How a callback ends, with the state that it leaves.
pub data Outcome (W : Type 0) : Type 0 where
  returned : W → Outcome W
  panicked : String → W → Outcome W

abbrev pub Callback : Type 0 → Type 0 → Type 0
Callback A W = ℕ → A → W → Outcome W

-- trackers[0] to trackers[5]
pub record Trackers (W : Type 0) : Type 0 where
  pub pipeline_started : HookTracker W
  pub pipeline_completed : HookTracker W
  pub pipeline_failed : HookTracker W
  pub step_started : HookTracker W
  pub step_completed : HookTracker W
  pub step_failed : HookTracker W

-- Hooks
pub record Hooks (W : Type 0) : Type 0 where
  pub on_pipeline_started : Registry (Callback String W)
  pub on_pipeline_completed : Registry (Callback (String × List Result) W)
  pub on_pipeline_failed : Registry (Callback (String × GoError) W)
  pub on_step_started : Registry (Callback (String × String) W)
  pub on_step_completed : Registry (Callback (String × String × Result) W)
  pub on_step_failed : Registry (Callback (String × String × GoError) W)
  pub trackers : Trackers W

module _ {W : Type 0} where
  -- NewHooks
  unfoldable pub new_hooks : Hooks W
  unfolding Registries.new_registry Tracker.new_hook_tracker
  new_hooks = record {
    on_pipeline_started = Registries.new_registry "pipeline_started";
    on_pipeline_completed = Registries.new_registry "pipeline_completed";
    on_pipeline_failed = Registries.new_registry "pipeline_failed";
    on_step_started = Registries.new_registry "step_started";
    on_step_completed = Registries.new_registry "step_completed";
    on_step_failed = Registries.new_registry "step_failed";
    trackers = record {
      pipeline_started = Tracker.new_hook_tracker "pipeline_started";
      pipeline_completed = Tracker.new_hook_tracker "pipeline_completed";
      pipeline_failed = Tracker.new_hook_tracker "pipeline_failed";
      step_started = Tracker.new_hook_tracker "step_started";
      step_completed = Tracker.new_hook_tracker "step_completed";
      step_failed = Tracker.new_hook_tracker "step_failed";
    };
  }

  -- SetPanicHandler
  unfoldable pub set_panic_handler : (ℕ → String → String → W → W) → Hooks W → Hooks W
  unfolding Tracker.set_panic_handler
  set_panic_handler fn h = record h {
    trackers = record {
      pipeline_started = Tracker.set_panic_handler fn h.trackers.pipeline_started;
      pipeline_completed = Tracker.set_panic_handler fn h.trackers.pipeline_completed;
      pipeline_failed = Tracker.set_panic_handler fn h.trackers.pipeline_failed;
      step_started = Tracker.set_panic_handler fn h.trackers.step_started;
      step_completed = Tracker.set_panic_handler fn h.trackers.step_completed;
      step_failed = Tracker.set_panic_handler fn h.trackers.step_failed;
    };
  }

  -- Stats
  unfoldable pub stats : Hooks W → List Stats
  unfolding Tracker.stats Registries.len
  stats h =
      Tracker.stats h.trackers.pipeline_started (Registries.len h.on_pipeline_started)
      ∷ Tracker.stats h.trackers.pipeline_completed (Registries.len h.on_pipeline_completed)
      ∷ Tracker.stats h.trackers.pipeline_failed (Registries.len h.on_pipeline_failed)
      ∷ Tracker.stats h.trackers.step_started (Registries.len h.on_step_started)
      ∷ Tracker.stats h.trackers.step_completed (Registries.len h.on_step_completed)
      ∷ Tracker.stats h.trackers.step_failed (Registries.len h.on_step_failed)
      ∷ []

  -- OnPipelineStarted
  unfoldable pub on_pipeline_started : Callback String W → Hooks W → Hooks W
  unfolding Registries.on
  on_pipeline_started fn h = record h {
    on_pipeline_started = Registries.on h.on_pipeline_started fn;
  }

  -- OnPipelineCompleted
  unfoldable pub on_pipeline_completed : Callback (String × List Result) W → Hooks W → Hooks W
  unfolding Registries.on
  on_pipeline_completed fn h = record h {
    on_pipeline_completed = Registries.on h.on_pipeline_completed fn;
  }

  -- OnPipelineFailed
  unfoldable pub on_pipeline_failed : Callback (String × GoError) W → Hooks W → Hooks W
  unfolding Registries.on
  on_pipeline_failed fn h = record h { on_pipeline_failed = Registries.on h.on_pipeline_failed fn }

  -- OnStepStarted
  unfoldable pub on_step_started : Callback (String × String) W → Hooks W → Hooks W
  unfolding Registries.on
  on_step_started fn h = record h { on_step_started = Registries.on h.on_step_started fn }

  -- OnStepCompleted
  unfoldable pub on_step_completed : Callback (String × String × Result) W → Hooks W → Hooks W
  unfolding Registries.on
  on_step_completed fn h = record h { on_step_completed = Registries.on h.on_step_completed fn }

  -- OnStepFailed
  unfoldable pub on_step_failed : Callback (String × String × GoError) W → Hooks W → Hooks W
  unfolding Registries.on
  on_step_failed fn h = record h { on_step_failed = Registries.on h.on_step_failed fn }

module _ {A W : Type 0} where
  -- One round of an emit loop: `defer RecoverPanic(); fn(args)`.
  unfoldable pub call_listener : Callback A W → ℕ → A → HookTracker W → W → HookTracker W × W
  call_listener fn now a t w = elim (fn now a w) [
    | returned w' ↦ Tracker.recover_panic now t none w'
    | panicked value w' ↦ Tracker.recover_panic now t (some value) w'
  ]

  -- The emit loop over the snapshot.
  unfoldable pub call_listeners :
      List (Callback A W) → ℕ → A → HookTracker W → W → HookTracker W × W
  call_listeners [] now a t w = (t, w)
  call_listeners (fn ∷ fns) now a t w =
      let (t', w') = call_listener fn now a t w in call_listeners fns now a t' w'

  -- TrackEmit and the loop
  unfoldable pub fire : Registry (Callback A W) → ℕ → A → HookTracker W → W → HookTracker W × W
  fire r now a t w = call_listeners (Registries.emit r) now a (Tracker.track_emit t) w

module _ {W : Type 0} where
  -- emitPipelineStarted
  unfoldable pub emit_pipeline_started : ℕ → String → Hooks W → W → Hooks W × W
  emit_pipeline_started now pipeline h w =
      let (t, w') = fire h.on_pipeline_started now pipeline h.trackers.pipeline_started w in
      (record h { trackers = record h.trackers { pipeline_started = t } }, w')

  -- emitPipelineCompleted
  unfoldable pub emit_pipeline_completed : ℕ → String → List Result → Hooks W → W → Hooks W × W
  emit_pipeline_completed now pipeline results h w =
      let (t, w') =
        fire h.on_pipeline_completed now (pipeline, results) h.trackers.pipeline_completed w in
      (record h { trackers = record h.trackers { pipeline_completed = t } }, w')

  -- emitPipelineFailed
  unfoldable pub emit_pipeline_failed : ℕ → String → GoError → Hooks W → W → Hooks W × W
  emit_pipeline_failed now pipeline err h w =
      let (t, w') = fire h.on_pipeline_failed now (pipeline, err) h.trackers.pipeline_failed w in
      (record h { trackers = record h.trackers { pipeline_failed = t } }, w')

  -- emitStepStarted
  unfoldable pub emit_step_started : ℕ → String → String → Hooks W → W → Hooks W × W
  emit_step_started now pipeline step h w =
      let (t, w') = fire h.on_step_started now (pipeline, step) h.trackers.step_started w in
      (record h { trackers = record h.trackers { step_started = t } }, w')

  -- emitStepCompleted
  unfoldable pub emit_step_completed : ℕ → String → String → Result → Hooks W → W → Hooks W × W
  emit_step_completed now pipeline step result h w =
      let (t, w') =
        fire h.on_step_completed now (pipeline, step, result) h.trackers.step_completed w in
      (record h { trackers = record h.trackers { step_completed = t } }, w')

  -- emitStepFailed
  unfoldable pub emit_step_failed : ℕ → String → String → GoError → Hooks W → W → Hooks W × W
  emit_step_failed now pipeline step err h w =
      let (t, w') = fire h.on_step_failed now (pipeline, step, err) h.trackers.step_failed w in
      (record h { trackers = record h.trackers { step_failed = t } }, w')
