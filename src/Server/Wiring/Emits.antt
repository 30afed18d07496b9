-- ===== src/Server/Wiring/Emits.antt =====
-- What each emit of the wired hooks does to the part of the state that run tracking owns: the
-- callback of registerRunTracking acts on it, and the callbacks around it leave it alone.
use lp.Base.{ℕ, String, List, ◌∷◌, ◌++◌, Option, none, some, ◌≡◌, refl, sym, All, arith}
use mathlib.Core.Path.{subst}
use lp.Errors.{GoError}
use lp.Hooks.{Registry}
use lp.Observability.Tracker.{HookTracker}
use lp.Runners.Step.{Os, Result}
use lp.Runners.Hooks.{
  Callback, Hooks, Trackers, fire, emit_pipeline_started, emit_pipeline_completed,
  emit_pipeline_failed, emit_step_started, emit_step_completed, emit_step_failed,
}
use lp.Runners.Delivery.{IsNeutral, IsQuiet, left_by, fire_state, view-deliver}
use lp.Runners.Pool.{Machine, notify}
use lp.Server.State.{Server, Tracked}
use lp.Server.Tracking.{
  track_pipeline_started, track_step_started, track_step_completed, track_step_failed, track_finish,
}
use lp.Server.Tracking

abbrev pub tracked_of : Server → Tracked
tracked_of s = s.tracked

-- A list of callbacks that has `fn` once, among callbacks that leave the tracked part alone.
pub record Around {A : Type 0} (fn : Callback A Server) (fns : List (Callback A Server))
    : Type 0 where
  pub before : List (Callback A Server)
  pub after : List (Callback A Server)
  pub split : fns ≡ before ++ (fn ∷ after)
  pub neutral_before : All (IsNeutral tracked_of) before
  pub neutral_after : All (IsNeutral tracked_of) after

-- The panic handlers of the six trackers leave the tracked part alone.
abbrev pub AreQuiet : Trackers Server → Type 0
AreQuiet t =
    IsQuiet tracked_of t.pipeline_started.on_panic
    × IsQuiet tracked_of t.pipeline_completed.on_panic
    × IsQuiet tracked_of t.pipeline_failed.on_panic
    × IsQuiet tracked_of t.step_started.on_panic
    × IsQuiet tracked_of t.step_completed.on_panic
    × IsQuiet tracked_of t.step_failed.on_panic

abbrev pub AreRegistered : Hooks Server → Type 0
AreRegistered h =
    Around Tracking.on_pipeline_started h.on_pipeline_started.listeners
    × Around Tracking.on_pipeline_completed h.on_pipeline_completed.listeners
    × Around Tracking.on_pipeline_failed h.on_pipeline_failed.listeners
    × Around Tracking.on_step_started h.on_step_started.listeners
    × Around Tracking.on_step_completed h.on_step_completed.listeners
    × Around Tracking.on_step_failed h.on_step_failed.listeners

pub record IsWired (h : Hooks Server) : Type 0 where
  pub registered : AreRegistered h
  pub quiet : AreQuiet h.trackers

-- The tracked part after a callback that may panic
abbrev pub or_keep : Option Tracked → Tracked → Tracked
or_keep none v = v
or_keep (some v') v = v'

acts-pipeline_started :
    (now : ℕ) (name : String) (s : Server)
    → tracked_of (left_by (Tracking.on_pipeline_started now name s))
      ≡ track_pipeline_started now name s.tracked
unfolding Tracking.on_pipeline_started
acts-pipeline_started now name s = refl

acts-pipeline_completed :
    (now : ℕ) (name : String) (results : List Result) (s : Server)
    → tracked_of (left_by (Tracking.on_pipeline_completed now (name, results) s))
      ≡ track_finish now name none s.tracked
unfolding Tracking.on_pipeline_completed
acts-pipeline_completed now name results s = refl

acts-pipeline_failed :
    (now : ℕ) (name : String) (err : GoError) (s : Server)
    → tracked_of (left_by (Tracking.on_pipeline_failed now (name, err) s))
      ≡ track_finish now name (some err) s.tracked
unfolding Tracking.on_pipeline_failed
acts-pipeline_failed now name err s = refl

acts-step_started :
    (now : ℕ) (name step : String) (s : Server)
    → tracked_of (left_by (Tracking.on_step_started now (name, step) s))
      ≡ track_step_started now name step s.tracked
unfolding Tracking.on_step_started
acts-step_started now name step s = refl

acts-step_completed :
    (now : ℕ) (name step : String) (result : Result) (s : Server)
    → tracked_of (left_by (Tracking.on_step_completed now (name, step, result) s))
      ≡ or_keep (track_step_completed now name step result s.tracked) s.tracked
unfolding Tracking.on_step_completed
acts-step_completed now name step result s = ground arith

acts-step_failed :
    (now : ℕ) (name step : String) (err : GoError) (s : Server)
    → tracked_of (left_by (Tracking.on_step_failed now (name, step, err) s))
      ≡ or_keep (track_step_failed now name step err s.tracked) s.tracked
unfolding Tracking.on_step_failed
acts-step_failed now name step err s = ground arith

fire_tracked :
    {A : Type 0} (fn : Callback A Server) (r : Registry (Callback A Server)) (now : ℕ) (a : A)
    (t : HookTracker Server) (w : Server) (act : Tracked → Tracked)
    → Around fn r.listeners
    → IsQuiet tracked_of t.on_panic
    → ((s : Server) → tracked_of (left_by (fn now a s)) ≡ act s.tracked)
    → tracked_of (fire r now a t w).1 ≡ act w.tracked
fire_tracked fn r now a t w act around quiet acts =
    rw ((fire_state r now a t w).0, around.split)
      (view-deliver tracked_of t.on_panic t.label now a quiet around.before around.after fn act w
        around.neutral_before around.neutral_after acts)

-- What an emit leaves: hooks that are wired, the tracked part `v`, and the rest of the machine.
pub record Emitted {O : Type 0} (m m' : Machine Server O) (v : Tracked) : Type 0 where
  pub wired : IsWired m'.pool.hooks
  pub tracked : m'.world.tracked ≡ v
  pub os : m'.os ≡ m.os
  pub cfg : m'.pool.cfg ≡ m.pool.cfg

fire-IsQuiet :
    {A : Type 0} (r : Registry (Callback A Server)) (now : ℕ) (a : A) (t : HookTracker Server)
    (w : Server)
    → IsQuiet tracked_of t.on_panic
    → IsQuiet tracked_of (fire r now a t w).0.on_panic
fire-IsQuiet r now a t w q = subst (IsQuiet tracked_of) (sym (fire_state r now a t w).1) q

module _ {O : Type 0} (os : Os O) (m : Machine Server O) (wired : IsWired m.pool.hooks) where
  pub Emitted-pipeline_started :
      (name : String)
      → Emitted m
          (notify os (λ now. emit_pipeline_started now name) m)
          (track_pipeline_started (os.now m.os) name m.world.tracked)
  unfolding notify emit_pipeline_started
  Emitted-pipeline_started name = record {
    wired = record {
      registered = wired.registered;
      quiet = (
        fire-IsQuiet m.pool.hooks.on_pipeline_started (os.now m.os) name
            m.pool.hooks.trackers.pipeline_started m.world wired.quiet.0,
        wired.quiet.1,
        wired.quiet.2,
        wired.quiet.3,
        wired.quiet.4,
        wired.quiet.5,
      );
    };
    tracked =
        fire_tracked Tracking.on_pipeline_started m.pool.hooks.on_pipeline_started (os.now m.os)
          name m.pool.hooks.trackers.pipeline_started m.world
          (track_pipeline_started (os.now m.os) name) wired.registered.0 wired.quiet.0
          (acts-pipeline_started (os.now m.os) name);
    os = refl;
    cfg = refl;
  }

  pub Emitted-pipeline_completed :
      (name : String) (results : List Result)
      → Emitted m
          (notify os (λ now. emit_pipeline_completed now name results) m)
          (track_finish (os.now m.os) name none m.world.tracked)
  unfolding notify emit_pipeline_completed
  Emitted-pipeline_completed name results = record {
    wired = record {
      registered = wired.registered;
      quiet = (
        wired.quiet.0,
        fire-IsQuiet m.pool.hooks.on_pipeline_completed (os.now m.os) (name, results)
            m.pool.hooks.trackers.pipeline_completed m.world wired.quiet.1,
        wired.quiet.2,
        wired.quiet.3,
        wired.quiet.4,
        wired.quiet.5,
      );
    };
    tracked =
        fire_tracked Tracking.on_pipeline_completed m.pool.hooks.on_pipeline_completed (os.now m.os)
          (name, results) m.pool.hooks.trackers.pipeline_completed m.world
          (track_finish (os.now m.os) name none) wired.registered.1 wired.quiet.1
          (acts-pipeline_completed (os.now m.os) name results);
    os = refl;
    cfg = refl;
  }

  pub Emitted-pipeline_failed :
      (name : String) (err : GoError)
      → Emitted m
          (notify os (λ now. emit_pipeline_failed now name err) m)
          (track_finish (os.now m.os) name (some err) m.world.tracked)
  unfolding notify emit_pipeline_failed
  Emitted-pipeline_failed name err = record {
    wired = record {
      registered = wired.registered;
      quiet = (
        wired.quiet.0,
        wired.quiet.1,
        fire-IsQuiet m.pool.hooks.on_pipeline_failed (os.now m.os) (name, err)
            m.pool.hooks.trackers.pipeline_failed m.world wired.quiet.2,
        wired.quiet.3,
        wired.quiet.4,
        wired.quiet.5,
      );
    };
    tracked =
        fire_tracked Tracking.on_pipeline_failed m.pool.hooks.on_pipeline_failed (os.now m.os)
          (name, err) m.pool.hooks.trackers.pipeline_failed m.world
          (track_finish (os.now m.os) name (some err)) wired.registered.2 wired.quiet.2
          (acts-pipeline_failed (os.now m.os) name err);
    os = refl;
    cfg = refl;
  }

  pub Emitted-step_started :
      (name step : String)
      → Emitted m
          (notify os (λ now. emit_step_started now name step) m)
          (track_step_started (os.now m.os) name step m.world.tracked)
  unfolding notify emit_step_started
  Emitted-step_started name step = record {
    wired = record {
      registered = wired.registered;
      quiet = (
        wired.quiet.0,
        wired.quiet.1,
        wired.quiet.2,
        fire-IsQuiet m.pool.hooks.on_step_started (os.now m.os) (name, step)
            m.pool.hooks.trackers.step_started m.world wired.quiet.3,
        wired.quiet.4,
        wired.quiet.5,
      );
    };
    tracked =
        fire_tracked Tracking.on_step_started m.pool.hooks.on_step_started (os.now m.os)
          (name, step) m.pool.hooks.trackers.step_started m.world
          (track_step_started (os.now m.os) name step) wired.registered.3 wired.quiet.3
          (acts-step_started (os.now m.os) name step);
    os = refl;
    cfg = refl;
  }

  pub Emitted-step_completed :
      (name step : String) (result : Result)
      → Emitted m (notify os (λ now. emit_step_completed now name step result) m) (
          or_keep
            (track_step_completed (os.now m.os) name step result m.world.tracked)
            m.world.tracked)
  unfolding notify emit_step_completed
  Emitted-step_completed name step result = record {
    wired = record {
      registered = wired.registered;
      quiet = (
        wired.quiet.0,
        wired.quiet.1,
        wired.quiet.2,
        wired.quiet.3,
        fire-IsQuiet m.pool.hooks.on_step_completed (os.now m.os) (name, step, result)
            m.pool.hooks.trackers.step_completed m.world wired.quiet.4,
        wired.quiet.5,
      );
    };
    tracked =
        fire_tracked Tracking.on_step_completed m.pool.hooks.on_step_completed (os.now m.os)
          (name, step, result) m.pool.hooks.trackers.step_completed m.world
          (λ v. or_keep (track_step_completed (os.now m.os) name step result v) v)
          wired.registered.4 wired.quiet.4 (acts-step_completed (os.now m.os) name step result);
    os = refl;
    cfg = refl;
  }

  pub Emitted-step_failed :
      (name step : String) (err : GoError)
      → Emitted m
          (notify os (λ now. emit_step_failed now name step err) m)
          (or_keep (track_step_failed (os.now m.os) name step err m.world.tracked) m.world.tracked)
  unfolding notify emit_step_failed
  Emitted-step_failed name step err = record {
    wired = record {
      registered = wired.registered;
      quiet = (
        wired.quiet.0,
        wired.quiet.1,
        wired.quiet.2,
        wired.quiet.3,
        wired.quiet.4,
        fire-IsQuiet m.pool.hooks.on_step_failed (os.now m.os) (name, step, err)
            m.pool.hooks.trackers.step_failed m.world wired.quiet.5,
      );
    };
    tracked =
        fire_tracked Tracking.on_step_failed m.pool.hooks.on_step_failed (os.now m.os)
          (name, step, err) m.pool.hooks.trackers.step_failed m.world
          (λ v. or_keep (track_step_failed (os.now m.os) name step err v) v) wired.registered.5
          wired.quiet.5 (acts-step_failed (os.now m.os) name step err);
    os = refl;
    cfg = refl;
  }
