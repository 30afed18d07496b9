-- ===== src/Listener/Hooks.antt =====
-- internal/listener/hooks.go: the four lifecycle events of the manager. The emit loop is the one of
-- internal/runners/hooks.go, written out again in the source.
use lp.Base.{ℕ, String, List, [], ◌∷◌}
use lp.Errors.{GoError}
use lp.Hooks.{Registry}
use lp.Hooks as Registries
use lp.Observability.Tracker.{HookTracker, Stats}
use lp.Observability.Tracker
use lp.Runners.Hooks.{Callback, fire}
use lp.Listener.Event.{Event}

-- trackers[0] to trackers[3]
pub record ListenerTrackers (W : Type 0) : Type 0 where
  pub started : HookTracker W
  pub stopped : HookTracker W
  pub error : HookTracker W
  pub received : HookTracker W

-- Hooks
pub record ListenerHooks (W : Type 0) : Type 0 where
  pub on_started : Registry (Callback String W)
  pub on_stopped : Registry (Callback String W)
  pub on_error : Registry (Callback (String × GoError) W)
  pub on_received : Registry (Callback Event W)
  pub trackers : ListenerTrackers W

module _ {W : Type 0} where
  -- NewHooks
  unfoldable pub new_listener_hooks : ListenerHooks W
  unfolding Registries.new_registry Tracker.new_hook_tracker
  new_listener_hooks = record {
    on_started = Registries.new_registry "listener_started";
    on_stopped = Registries.new_registry "listener_stopped";
    on_error = Registries.new_registry "listener_error";
    on_received = Registries.new_registry "event_received";
    trackers = record {
      started = Tracker.new_hook_tracker "listener_started";
      stopped = Tracker.new_hook_tracker "listener_stopped";
      error = Tracker.new_hook_tracker "listener_error";
      received = Tracker.new_hook_tracker "event_received";
    };
  }

  -- SetPanicHandler
  unfoldable pub set_listener_panic_handler :
      (ℕ → String → String → W → W) → ListenerHooks W → ListenerHooks W
  unfolding Tracker.set_panic_handler
  set_listener_panic_handler fn h = record h {
    trackers = record {
      started = Tracker.set_panic_handler fn h.trackers.started;
      stopped = Tracker.set_panic_handler fn h.trackers.stopped;
      error = Tracker.set_panic_handler fn h.trackers.error;
      received = Tracker.set_panic_handler fn h.trackers.received;
    };
  }

  -- Stats
  unfoldable pub listener_stats : ListenerHooks W → List Stats
  unfolding Tracker.stats Registries.len
  listener_stats h =
      Tracker.stats h.trackers.started (Registries.len h.on_started)
      ∷ Tracker.stats h.trackers.stopped (Registries.len h.on_stopped)
      ∷ Tracker.stats h.trackers.error (Registries.len h.on_error)
      ∷ Tracker.stats h.trackers.received (Registries.len h.on_received)
      ∷ []

  -- OnListenerStarted
  unfoldable pub on_listener_started : Callback String W → ListenerHooks W → ListenerHooks W
  unfolding Registries.on
  on_listener_started fn h = record h { on_started = Registries.on h.on_started fn }

  -- OnListenerStopped
  unfoldable pub on_listener_stopped : Callback String W → ListenerHooks W → ListenerHooks W
  unfolding Registries.on
  on_listener_stopped fn h = record h { on_stopped = Registries.on h.on_stopped fn }

  -- OnListenerError
  unfoldable pub on_listener_error :
      Callback (String × GoError) W → ListenerHooks W → ListenerHooks W
  unfolding Registries.on
  on_listener_error fn h = record h { on_error = Registries.on h.on_error fn }

  -- OnEventReceived
  unfoldable pub on_event_received : Callback Event W → ListenerHooks W → ListenerHooks W
  unfolding Registries.on
  on_event_received fn h = record h { on_received = Registries.on h.on_received fn }

  -- emitListenerStarted
  unfoldable pub emit_listener_started : ℕ → String → ListenerHooks W → W → ListenerHooks W × W
  emit_listener_started now name h w =
      let (t, w') = fire h.on_started now name h.trackers.started w in
      (record h { trackers = record h.trackers { started = t } }, w')

  -- emitListenerStopped
  unfoldable pub emit_listener_stopped : ℕ → String → ListenerHooks W → W → ListenerHooks W × W
  emit_listener_stopped now name h w =
      let (t, w') = fire h.on_stopped now name h.trackers.stopped w in
      (record h { trackers = record h.trackers { stopped = t } }, w')

  -- emitListenerError
  unfoldable pub emit_listener_error :
      ℕ → String → GoError → ListenerHooks W → W → ListenerHooks W × W
  emit_listener_error now name err h w =
      let (t, w') = fire h.on_error now (name, err) h.trackers.error w in
      (record h { trackers = record h.trackers { error = t } }, w')

  -- emitEventReceived
  unfoldable pub emit_event_received : ℕ → Event → ListenerHooks W → W → ListenerHooks W × W
  emit_event_received now event h w =
      let (t, w') = fire h.on_received now event h.trackers.received w in
      (record h { trackers = record h.trackers { received = t } }, w')
