-- ===== src/Server/Follow.antt =====
-- The Run record under each callback of registerRunTracking: what `activeRuns` and the store show
-- for one pipeline name while its pipeline runs.
use lp.Base.{
  ℕ, suc, ◌+◌, String, Bool, true, false, List, [], ◌∷◌, ◌++◌, Option, none, some, ◌≡◌, refl, ◌∙◌,
  ap, All, arith, length, get_elem?, str_eq, eq_refl,
}
use lp.Base.Dict
use lp.Base.Dict.{dict_laws, get-put, get-delete}
use lp.Errors.{GoError}
use lp.Pipeline.Run.{
  Run, StepResult, Status, completed, failed, write_completed, write_failed, is_pending,
  pending_step, mark_started, mark_completed, mark_failed, update_step, start, start_step,
  complete_step, fail_step, finish,
}
use lp.Runners.Step.{Result}
use lp.Server.State.{Tracked}
use lp.Server.Tracking.{
  first_index, active_run, save_run, is_current, track_pipeline_started, track_step_started,
  track_step_completed, track_step_failed, track_finish,
}
use lp.Server.Wiring.Emits.{or_keep}

first_index_from :
    (test : StepResult → Bool) (i : ℕ) (front : List StepResult) (x : StepResult)
    (back : List StepResult)
    → All (λ s. test s ≡ false) front
    → test x ≡ true
    → first_index test i (front ++ (x ∷ back)) ≡ some (i + length front)
unfolding first_index
first_index_from test i [] x back h hx = rw hx (ap some (omega arith))
first_index_from test i (s ∷ front) x back (h, hs) hx =
    rw h (first_index_from test (suc i) front x back hs hx ∙ ap some (omega arith))

-- The range loop stops at the first step that passes the test.
pub first_index_lem :
    (test : StepResult → Bool) (front : List StepResult) (x : StepResult) (back : List StepResult)
    → All (λ s. test s ≡ false) front
    → test x ≡ true
    → first_index test 0 (front ++ (x ∷ back)) ≡ some (length front)
first_index_lem test front x back h hx =
    first_index_from test 0 front x back h hx ∙ ap some (omega arith)

update_step_lem :
    (f : StepResult → StepResult) (front : List StepResult) (x : StepResult)
    (back : List StepResult)
    → update_step (length front) f (front ++ (x ∷ back)) ≡ front ++ (f x ∷ back)
unfolding update_step
update_step_lem f [] x back = refl
update_step_lem f (s ∷ front) x back =
    ap (λ (r : List StepResult). s ∷ r) (update_step_lem f front x back)

get_elem?_middle :
    (front : List StepResult) (x : StepResult) (back : List StepResult)
    → get_elem? (front ++ (x ∷ back)) (length front) ≡ some x
get_elem?_middle [] x back = refl
get_elem?_middle (s ∷ front) x back = get_elem?_middle front x back

-- The status of a run that ends with or without an error
abbrev pub status_of : Option GoError → Status
status_of none = completed
status_of (some err) = failed

-- The name is bound to a run without an error, with these step records; all other runs are those of `v0`.
pub record Follows (name rid : String) (v0 v : Tracked) (steps : List StepResult) : Type 0 where
  pub run : Run
  pub active : Dict.get v.active_runs name ≡ some rid
  pub stored : Dict.get v.store.runs rid ≡ some run
  pub records : run.steps ≡ steps
  pub no_error : run.error ≡ none
  pub others :
      (j : String) → str_eq rid j ≡ false → Dict.get v.store.runs j ≡ Dict.get v0.store.runs j

module _ {name rid : String} {v0 : Tracked} where
  active_run_lem :
      {v : Tracked} {steps : List StepResult} (f : Follows name rid v0 v steps)
      → active_run name v ≡ some (rid, f.run)
  unfolding active_run
  active_run_lem f = ground (arith, f.active, f.stored)

  Follows-save :
      {v : Tracked} {steps : List StepResult} (f : Follows name rid v0 v steps) (r : Run)
      (steps' : List StepResult)
      → r.steps ≡ steps'
      → r.error ≡ none
      → Follows name rid v0 (save_run rid r v) steps'
  unfolding save_run
  Follows-save {v = v} f r steps' e n = record {
    run = r;
    active = f.active;
    stored = rw (get-put v.store.runs rid rid r, eq_refl rid) refl;
    records = e;
    no_error = n;
    others = λ j h. rw (get-put v.store.runs rid j r, h) (f.others j h);
  }

  module _ {v : Tracked} {steps : List StepResult} (now : ℕ) (f : Follows name rid v0 v steps) where
    started_run : track_pipeline_started now name v ≡ save_run rid (start now f.run) v
    unfolding track_pipeline_started
    started_run = ground (arith, active_run_lem f)

    pub Follows-pipeline_started : Follows name rid v0 (track_pipeline_started now name v) steps
    unfolding start
    Follows-pipeline_started =
        rw started_run (Follows-save f (start now f.run) steps f.records f.no_error)

  module _ {v : Tracked} (now : ℕ) (step : String) (front back : List StepResult) where
    started_step :
        (f : Follows name rid v0 v (front ++ (pending_step ∷ back)))
        → All (λ s. is_pending s.status ≡ false) front
        → track_step_started now name step v
          ≡ save_run rid (start_step now (length front) step f.run) v
    unfolding track_step_started
    started_step f h = ground (
      arith,
      active_run_lem f,
      f.records,
      first_index_lem (λ s. is_pending s.status) front pending_step back h refl,
    )

    pub Follows-step_started :
        Follows name rid v0 v (front ++ (pending_step ∷ back))
        → All (λ s. is_pending s.status ≡ false) front
        → Follows name rid v0
            (track_step_started now name step v)
            (front ++ (mark_started step pending_step ∷ back))
    Follows-step_started f h = rw (started_step f h) (
        Follows-save f (start_step now (length front) step f.run) _
          (unfold start_step in
            rw f.records (update_step_lem (mark_started step) front pending_step back))
          (unfold start_step in f.no_error))

    completed_step :
        (result : Result) (x : StepResult) (f : Follows name rid v0 v (front ++ (x ∷ back)))
        → All (λ s. is_current step s ≡ false) front
        → is_current step x ≡ true
        → or_keep (track_step_completed now name step result v) v
          ≡ save_run rid (write_completed now (length front) result.stdout x f.run) v
    unfolding track_step_completed complete_step
    completed_step result x f h hx = ground (
      arith,
      active_run_lem f,
      f.records,
      first_index_lem (is_current step) front x back h hx,
      get_elem?_middle front x back,
    )

    pub Follows-step_completed :
        (result : Result) (x : StepResult)
        → Follows name rid v0 v (front ++ (x ∷ back))
        → All (λ s. is_current step s ≡ false) front
        → is_current step x ≡ true
        → Follows name rid v0
            (or_keep (track_step_completed now name step result v) v)
            (front ++ (mark_completed result.stdout x ∷ back))
    Follows-step_completed result x f h hx = rw (completed_step result x f h hx) (
        Follows-save f (write_completed now (length front) result.stdout x f.run) _
          (unfold write_completed in
            rw f.records (update_step_lem (mark_completed result.stdout) front x back))
          (unfold write_completed in f.no_error))

    failed_step :
        (err : GoError) (x : StepResult) (f : Follows name rid v0 v (front ++ (x ∷ back)))
        → All (λ s. is_current step s ≡ false) front
        → is_current step x ≡ true
        → or_keep (track_step_failed now name step err v) v
          ≡ save_run rid (write_failed now (length front) "" err x f.run) v
    unfolding track_step_failed fail_step
    failed_step err x f h hx = ground (
      arith,
      active_run_lem f,
      f.records,
      first_index_lem (is_current step) front x back h hx,
      get_elem?_middle front x back,
    )

    pub Follows-step_failed :
        (err : GoError) (x : StepResult)
        → Follows name rid v0 v (front ++ (x ∷ back))
        → All (λ s. is_current step s ≡ false) front
        → is_current step x ≡ true
        → Follows name rid v0
            (or_keep (track_step_failed now name step err v) v)
            (front ++ (mark_failed "" err x ∷ back))
    Follows-step_failed err x f h hx = rw (failed_step err x f h hx) (
        Follows-save f (write_failed now (length front) "" err x f.run) _
          (unfold write_failed in rw f.records (update_step_lem (mark_failed "" err) front x back))
          (unfold write_failed in f.no_error))

-- What a finished pipeline leaves under its name: no active run, and its run with this end.
pub record Finished (name rid : String) (v0 v : Tracked) (steps : List StepResult)
    (err : Option GoError) : Type 0 where
  pub run : Run
  pub inactive : Dict.get v.active_runs name ≡ none
  pub stored : Dict.get v.store.runs rid ≡ some run
  pub records : run.steps ≡ steps
  pub status : run.status ≡ status_of err
  pub error : run.error ≡ err
  pub others :
      (j : String) → str_eq rid j ≡ false → Dict.get v.store.runs j ≡ Dict.get v0.store.runs j

module _ {name rid : String} {v0 v : Tracked} {steps : List StepResult} (now : ℕ)
    (err : Option GoError) (f : Follows name rid v0 v steps) where
  finished_run : track_finish now name err v ≡ record (save_run rid (finish now err f.run) v) {
    active_runs = Dict.delete v.active_runs name;
  }
  unfolding track_finish
  finished_run = ground (arith, active_run_lem f)

  -- Finish sets the status and the error that tell how the pipeline ended, and nothing else.
  finish_fields :
      ((finish now err f.run).status ≡ status_of err)
      × ((finish now err f.run).error ≡ err)
      × ((finish now err f.run).steps ≡ f.run.steps)
  unfolding finish
  finish_fields = ground (arith, f.no_error)

  pub Finished-track_finish : Finished name rid v0 (track_finish now name err v) steps err
  Finished-track_finish = rw finished_run (
      unfold save_run in
      record {
        run = finish now err f.run;
        inactive = rw (get-delete v.active_runs name name, eq_refl name) refl;
        stored = rw (get-put v.store.runs rid rid (finish now err f.run), eq_refl rid) refl;
        records = finish_fields.2 ∙ f.records;
        status = finish_fields.0;
        error = finish_fields.1;
        others = λ j h. rw (get-put v.store.runs rid j (finish now err f.run), h) (f.others j h);
      })
