-- ===== src/Server/RunRecord/Progress.antt =====
-- internal/runners/pool.go, run, and cmd/server/server.go, registerRunTracking: the run record between
-- two steps.
use mathlib.Core.Path.{subst}
use lp.Base.{String, false, List, [], ◌∷◌, ◌++◌, some, ◌≡◌, sym, ◌∙◌, All, arith, eq_refl}
use lp.Errors.{GoError}
use lp.Pipeline.Run.{
  StepResult, is_pending, is_running, pending_step, mark_started, mark_completed, mark_failed,
}
use lp.Runners.Step.{Step, EmitDef, Result, Os}
use lp.Runners.Hooks.{emit_step_started, emit_step_completed, emit_step_failed}
use lp.Runners.Pool.{Machine, notify, emit_events, complete_step, fail_step}
use lp.Server.State.{Server, Tracked}
use lp.Server.Tracking.{is_current}
use lp.Server.Wiring.Emits.{
  IsWired, Emitted-pipeline_failed, Emitted-step_started, Emitted-step_completed,
  Emitted-step_failed,
}
use lp.Server.Follow.{
  Follows, Finished, Follows-step_started, Follows-step_completed, Follows-step_failed,
  Finished-track_finish,
}
use lp.Server.RunRecord.Records.{completed_record, failed_record}

-- A step record that no callback changes any more.
abbrev pub IsDone : StepResult → Type 0
IsDone s = (is_pending s.status ≡ false) × (is_running s.status ≡ false)

pub not_pending : (ss : List StepResult) → All IsDone ss → All (λ s. is_pending s.status ≡ false) ss
not_pending [] h = tt
not_pending (s ∷ ss) (h, hs) = (h.0, not_pending ss hs)

pub not_current :
    (step : String) (ss : List StepResult) → All IsDone ss → All (λ s. is_current step s ≡ false) ss
not_current step [] h = tt
not_current step (s ∷ ss) (h, hs) = (ground arith, not_current step ss hs)

-- A machine in the middle of a run: its hooks are wired, its system is in the state `o`, and the
-- Run record under `name` has these steps.
pub record Running {O : Type 0} (name rid : String) (v0 : Tracked) (o : O) (m : Machine Server O)
    (steps : List StepResult) : Type 0 where
  pub wired : IsWired m.pool.hooks
  pub follows : Follows name rid v0 m.world.tracked steps
  pub at_os : m.os ≡ o

pub emit_events_keeps :
    {O : Type 0} (source : String) (defs : List EmitDef) (m : Machine Server O)
    → ((emit_events source defs m).world ≡ m.world)
      × ((emit_events source defs m).pool.hooks ≡ m.pool.hooks)
      × ((emit_events source defs m).os ≡ m.os)
unfolding emit_events
emit_events_keeps source defs m = ground arith

module _ {O : Type 0} (os : Os O) {name rid : String} {v0 : Tracked} {o : O} where
  pub Running-emit_events :
      {m : Machine Server O} {steps : List StepResult} (source : String) (defs : List EmitDef)
      → Running name rid v0 o m steps
      → Running name rid v0 o (emit_events source defs m) steps
  Running-emit_events {m = m} {steps = steps} source defs r =
      let (world, hooks, state) = emit_events_keeps source defs m in
      record {
        wired = subst IsWired (sym hooks) r.wired;
        follows = subst (λ (w : Server). Follows name rid v0 w.tracked steps) (sym world) r.follows;
        at_os = state ∙ r.at_os;
      }

  module _ (m : Machine Server O) (step : String) (front back : List StepResult) where
    pub Running-started :
        Running name rid v0 o m (front ++ (pending_step ∷ back))
        → All IsDone front
        → Running name rid v0 o
            (notify os (λ now. emit_step_started now name step) m)
            (front ++ (mark_started step pending_step ∷ back))
    Running-started r h =
        let e = Emitted-step_started os m r.wired name step in
        record {
          wired = e.wired;
          follows =
              subst
                (λ (v : Tracked).
                  Follows name rid v0 v (front ++ (mark_started step pending_step ∷ back)))
                (sym e.tracked)
                (Follows-step_started (os.now m.os) step front back r.follows
                  (not_pending front h));
          at_os = e.os ∙ r.at_os;
        }

    pub Running-completed :
        (s : Step) (result : Result)
        → s.name ≡ step
        → Running name rid v0 o m (front ++ (mark_started step pending_step ∷ back))
        → All IsDone front
        → Running name rid v0 o
            (complete_step os name s result m)
            (front ++ (completed_record step result ∷ back))
    unfolding complete_step mark_completed mark_started
    Running-completed s result same r h =
        let e = Emitted-step_completed os m r.wired name s.name result in
        Running-emit_events {m = notify os (λ now. emit_step_completed now name s.name result) m}
          {steps = front ++ (completed_record step result ∷ back)} name s.emit
          (record {
            wired = e.wired;
            follows =
                subst
                  (λ (v : Tracked).
                    Follows name rid v0 v (front ++ (completed_record step result ∷ back)))
                  (sym e.tracked)
                  (Follows-step_completed (os.now m.os) s.name front back result
                    (mark_started step pending_step) r.follows (not_current s.name front h)
                    (rw (same, eq_refl step)));
            at_os = e.os ∙ r.at_os;
          })

    pub Finished-failed :
        (err : GoError)
        → Running name rid v0 o m (front ++ (mark_started step pending_step ∷ back))
        → All IsDone front
        → Finished name rid v0
            (fail_step os name step err m).world.tracked
            (front ++ (failed_record step err ∷ back))
            (some err)
    unfolding fail_step mark_failed mark_started
    Finished-failed err r h =
        let e = Emitted-step_failed os m r.wired name step err in
        let e' =
          Emitted-pipeline_failed os (notify os (λ now. emit_step_failed now name step err) m)
            e.wired name err in
        subst
          (λ (v : Tracked).
            Finished name rid v0 v (front ++ (failed_record step err ∷ back)) (some err))
          (sym e'.tracked)
          (Finished-track_finish _ (some err) (
            subst
              (λ (v : Tracked). Follows name rid v0 v (front ++ (failed_record step err ∷ back)))
              (sym e.tracked)
              (Follows-step_failed (os.now m.os) step front back err
                (mark_started step pending_step) r.follows (not_current step front h)
                (rw (eq_refl step)))))
