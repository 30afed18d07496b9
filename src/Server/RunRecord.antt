-- ===== src/Server/RunRecord.antt =====
-- Pool.run under the hooks of the server: the Run record of a pipeline tells what its commands did.
mod Records
mod Progress
use mathlib.Core.List.{append_assoc}
use mathlib.Core.Path.{subst}
use lp.Base.{
  ℕ, suc, String, false, List, [], ◌∷◌, ◌++◌, Option, none, some, ◌≡◌, refl, sym, ◌∙◌, All,
  All-append, arith, length, replicate, eq_refl, Option-cases, inl, inr,
}
use lp.Errors.{GoError, step_error}
use lp.Pipeline.Run.{
  StepResult, is_pending, is_running, pending_step, completed, failed, mark_started, mark_completed,
  mark_failed,
}
use lp.Runners.Step.{Step, EmitDef, Pipeline, Result, Context, Os, execute}
use lp.Runners.Hooks.{
  emit_pipeline_started, emit_pipeline_completed, emit_step_started, emit_step_completed,
  emit_step_failed,
}
use lp.Runners.Pool.{
  Machine, Finish, finished, stopped, notify, emit_events, run_steps, complete_step, fail_step,
  finish_run, run, with_timeout,
}
use lp.Server.State.{Server, Tracked}
use lp.Server.Tracking.{is_current}
use lp.Server.Wiring.Emits.{
  IsWired, Emitted-pipeline_started, Emitted-pipeline_completed, Emitted-pipeline_failed,
  Emitted-step_started, Emitted-step_completed, Emitted-step_failed,
}
use lp.Server.Follow.{
  Follows, Finished, Follows-pipeline_started, Follows-step_started, Follows-step_completed,
  Follows-step_failed, Finished-track_finish,
}
unfoldable pub use Records.*
use Progress.{
  IsDone, Running, emit_events_keeps, Running-started, Running-completed, Finished-failed,
}

-- What the loop over the steps leaves: a run that is complete but for its end, or one that has ended.
abbrev Ends :
    {O : Type 0}
    → String
    → String
    → Tracked
    → List StepResult
    → Option GoError
    → Finish × Machine Server O
    → Type 0
Ends name rid v0 records err (finished results, m) =
    IsWired m.pool.hooks × Follows name rid v0 m.world.tracked records × (err ≡ none)
Ends name rid v0 records err (stopped e, m) =
    Finished name rid v0 m.world.tracked records (some e) × (err ≡ some e)

module _ {O : Type 0} (os : Os O) (ctx : Context) (name rid : String) (v0 : Tracked) where
  run_steps-Ends :
      (steps : List Step) (i : ℕ) (results : List Result) (front : List StepResult) (o : O)
      (m : Machine Server O)
      → Running name rid v0 o m (front ++ replicate (length steps) pending_step)
      → All IsDone front
      → Ends name rid v0
          (front ++ step_records os ctx name i steps o)
          (first_error os ctx name i steps o)
          (run_steps os ctx name i steps results m)
  unfolding run_steps step_records first_error
  run_steps-Ends [] i results front o m r h = (r.wired, r.follows, refl)
  run_steps-Ends (step ∷ steps) i results front o m r h =
      subst
        (λ (q : O).
          Ends name rid v0 (front ++ step_records os ctx name i (step ∷ steps) q)
            (first_error os ctx name i (step ∷ steps) q)
            (run_steps os ctx name i (step ∷ steps) results m))
        r.at_os
        (elim (Option-cases (execute os ctx step m.os).0.1) [
          | inl good ↦
              rw (good, run_steps, step_records, first_error)
                (rw (append_assoc front (completed_record step.name result ∷ []) later) at (
                  run_steps-Ends steps (suc i) (results ++ result ∷ [])
                    (front ++ completed_record step.name result ∷ []) _
                    (complete_step os name step result executed) completed
                    (All-append IsDone front _ h ((refl, refl), tt))))
          | inr (e, bad) ↦
              rw (bad, run_steps, step_records, first_error)
                (
                  Finished-failed os executed step.name front back (step_error name i step.name e)
                      running h,
                  refl,
                )
        ])
    where
      back : List StepResult
      back = replicate (length steps) pending_step

      result : Result
      result = (execute os ctx step m.os).0.0

      executed : Machine Server O
      executed = record (notify os (λ now. emit_step_started now name step.name) m) {
        os = (execute os ctx step m.os).1;
      }

      later : List StepResult
      later = step_records os ctx name (suc i) steps (execute os ctx step m.os).1

      running :
          Running name rid v0
            (execute os ctx step m.os).1
            executed
            (front ++ (mark_started step.name pending_step ∷ back))
      running =
          let s = Running-started os m step.name front back r h in
          record { wired = s.wired; follows = s.follows; at_os = refl }

      completed :
          Running name rid v0
            (execute os ctx step m.os).1
            (complete_step os name step result executed)
            ((front ++ completed_record step.name result ∷ []) ++ back)
      completed =
          rw (append_assoc front (completed_record step.name result ∷ []) back)
            (Running-completed os executed step.name front back step result refl running h)

  finish_run-Finished :
      (p : Pipeline) (records : List StepResult) (err : Option GoError)
      (res : Finish × Machine Server O)
      → p.name ≡ name
      → Ends name rid v0 records err res
      → Finished name rid v0 (finish_run os p res).1.world.tracked records err
        × ((finish_run os p res).0 ≡ err)
  unfolding finish_run
  finish_run-Finished p records err (stopped e, m) same (f, q) = (rw q f, sym q)
  finish_run-Finished p records err (finished results, m) same (wired, follows, q) =
      let e = Emitted-pipeline_completed os m wired p.name results in
      (
        rw
            (
              (emit_events_keeps p.name p.emit
                  (notify os (λ now. emit_pipeline_completed now p.name results) m)).0,
              q,
            )
            (subst (λ (v : Tracked). Finished name rid v0 v records none) (sym e.tracked)
              (rw same (Finished-track_finish (os.now m.os) none follows))),
        sym q,
      )

-- For a pool whose hooks are wired as the server's, with any configured hooks: if the active run
-- under the pipeline's name has a record for each step, all still pending, and no error, then
-- Pool.run returns the error of the first command that fails, if any, and leaves a run with the
-- status completed or failed accordingly, that error, and the step records that the commands'
-- results call for, stdout and errors included; the name is no longer active, and no other run
-- has changed.
pub run-records :
    {O : Type 0} (os : Os O) (parent : Context) (p : Pipeline) (m : Machine Server O) (rid : String)
    → IsWired m.pool.hooks
    → Follows p.name rid m.world.tracked m.world.tracked (replicate (length p.steps) pending_step)
    → let ctx = with_timeout (os.now m.os) m.pool.cfg.timeout parent in
      Finished p.name rid m.world.tracked
        (run os parent p m).1.world.tracked
        (step_records os ctx p.name 0 p.steps m.os)
        (first_error os ctx p.name 0 p.steps m.os)
      × ((run os parent p m).0 ≡ first_error os ctx p.name 0 p.steps m.os)
unfolding run
run-records os parent p m rid wired follows =
    let e = Emitted-pipeline_started os m wired p.name in
    let ctx : Context = with_timeout (os.now m.os) m.pool.cfg.timeout parent in
    finish_run-Finished os ctx p.name rid m.world.tracked p
      (step_records os ctx p.name 0 p.steps m.os) (first_error os ctx p.name 0 p.steps m.os) _ refl
      (run_steps-Ends os ctx p.name rid m.world.tracked p.steps 0 [] [] m.os
        (notify os (λ now. emit_pipeline_started now p.name) m)
        (record {
          wired = e.wired;
          follows =
              subst
                (λ (v : Tracked).
                  Follows p.name rid m.world.tracked v (replicate (length p.steps) pending_step))
                (sym e.tracked) (Follows-pipeline_started (os.now m.os) follows);
          at_os = refl;
        })
        tt)
