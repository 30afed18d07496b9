-- ===== src/Server/Dispatched.antt =====
-- cmd/server/server.go and internal/runners/pool.go: dispatchPipeline, with the run of the pool behind it.
use mathlib.Core.Path.{subst}
use lp.Base.{
  ℕ, String, List, Option, none, some, ◌≡◌, ◌≢◌, ◌⊎◌, inl, inr, refl, sym, ◌∙◌, ap, Option-cases,
  length, replicate,
}
use lp.Base.Dict
use lp.Base.Dict.{IsOrder}
use lp.Errors.{GoError}
use lp.Pipeline.Definition.{PipelineDef, to_runners_pipeline}
use lp.Pipeline.Run.{StepResult, pending_step}
use lp.Pipeline.Store.{find_by_name}
use lp.Pipeline.Store.Runs.{find_by_name-none, find_by_name_sound}
use lp.Runners.Step.{Pipeline, Context, Os}
use lp.Runners.Pool.{Pool, run, with_timeout}
use lp.Server.State.{Server, Tracked}
use lp.Server.Wiring.Emits.{IsWired}
use lp.Server.Follow.{Follows, Finished}
use lp.Server.RunRecord.{step_records, first_error, run-records}
use lp.Server.Dispatch.{
  IsKeyed, dispatch_pipeline, dispatch_pipeline_found, dispatch_pipeline_missing,
  dispatch_pipeline-Follows,
}

-- A run that is followed is so from its own state on.
rebased :
    {name rid : String} {v0 v : Tracked} {steps : List StepResult}
    → Follows name rid v0 v steps
    → Follows name rid v v steps
rebased f = record {
  run = f.run;
  active = f.active;
  stored = f.stored;
  records = f.records;
  no_error = f.no_error;
  others = λ j other. refl;
}

-- The other runs may be compared with those of an earlier state.
since_dispatch :
    {name rid : String} {v0 v w : Tracked} {steps records : List StepResult} {err : Option GoError}
    → Follows name rid v0 v steps
    → Finished name rid v w records err
    → Finished name rid v0 w records err
since_dispatch f end = record {
  run = end.run;
  inactive = end.inactive;
  stored = end.stored;
  records = end.records;
  status = end.status;
  error = end.error;
  others = λ j other. end.others j other ∙ f.others j other;
}

module _ {O : Type 0} (os : Os O) (parent : Context) (pool : Pool Server) (o : O) where
  -- What Pool.run of a pipeline, begun on a server, leaves of the runs
  abbrev pub run_on : Pipeline → Server → Option GoError × Tracked
  run_on p s =
      let (err, m) = run os parent p (record { pool = pool; world = s; os = o }) in
      (err, m.world.tracked)

  -- What the commands of a pipeline do, told by step_records and first_error
  abbrev pub records_of : Pipeline → List StepResult
  records_of p =
      step_records os (with_timeout (os.now o) pool.cfg.timeout parent) p.name 0 p.steps o

  abbrev pub error_of : Pipeline → Option GoError
  error_of p = first_error os (with_timeout (os.now o) pool.cfg.timeout parent) p.name 0 p.steps o

  module _ (order : List (String × PipelineDef)) (new_id : String) (now : ℕ) (name source : String)
      (s : Server) (wired : IsWired pool.hooks) (is_order : IsOrder order s.tracked.store.pipelines)
      (keyed : IsKeyed s.tracked.store) where
    -- The pool then runs the pipeline under the new run.
    pub run_followed :
        (p : Pipeline)
        → (dispatch_pipeline order new_id now none name source s).1 ≡ some p
        → Finished name new_id s.tracked
            (run_on p (dispatch_pipeline order new_id now none name source s).0).1
            (records_of p)
            (error_of p)
          × ((run_on p (dispatch_pipeline order new_id now none name source s).0).0 ≡ error_of p)
    run_followed p handed =
        let (same, follows) =
          dispatch_pipeline-Follows order new_id now name source s is_order keyed p handed in
        let (end, result) =
          run-records os parent p
            (record {
              pool = pool;
              world = (dispatch_pipeline order new_id now none name source s).0;
              os = o;
            })
            new_id wired
            (subst
              (λ n.
                Follows n new_id (dispatch_pipeline order new_id now none name source s).0.tracked
                  (dispatch_pipeline order new_id now none name source s).0.tracked
                  (replicate (length p.steps) pending_step))
              (sym same) (rebased follows)) in
        (
          since_dispatch follows (
              subst
                (λ n.
                  Finished n new_id
                    (dispatch_pipeline order new_id now none name source s).0.tracked
                    (run_on p (dispatch_pipeline order new_id now none name source s).0).1
                    (records_of p) (error_of p))
                same end),
          result,
        )

    -- For hooks wired as the server's, every pipeline kept under its own ID and a lookup that visits
    -- them all: if a stored pipeline has the name asked for, dispatchPipeline, whose Submit succeeds,
    -- hands over one that has it, and when the pool then runs that pipeline on the server as the
    -- dispatch has left it, Pool.run returns the error of the first command that fails, if any, and
    -- leaves under the new ID a run with the status completed or failed accordingly, that error and
    -- the step records that the commands' results call for, no active run under the name, and every
    -- run under another ID as it was before the dispatch; if no stored pipeline has the name, nothing is
    -- handed over, and neither the store nor the active runs change.
    pub dispatched_run :
        let d = dispatch_pipeline order new_id now none name source s in
        ((q : PipelineDef) × (id : String) × (Dict.get s.tracked.store.pipelines id ≡ some q)
          × (q.name ≡ name)
          × (d.1 ≡ some (to_runners_pipeline q))
          × Finished name new_id s.tracked
              (run_on (to_runners_pipeline q) d.0).1
              (records_of (to_runners_pipeline q))
              (error_of (to_runners_pipeline q))
          × ((run_on (to_runners_pipeline q) d.0).0 ≡ error_of (to_runners_pipeline q)))
        ⊎ (((id : String) (q : PipelineDef)
              → Dict.get s.tracked.store.pipelines id ≡ some q
              → q.name ≢ name)
            × (d.1 ≡ none)
            × (d.0.tracked ≡ s.tracked))
    dispatched_run = elim (Option-cases (find_by_name name order)) [
      | inr (q, found) ↦
          let handed_over : (dispatch_pipeline order new_id now none name source s).1
              ≡ some (to_runners_pipeline q) =
            ap (λ (r : Server × Option Pipeline). r.1)
              (dispatch_pipeline_found order new_id now name source s is_order keyed q found) in
          let (named, id, listed) = find_by_name_sound name order q found in
          let (end, result) = run_followed (to_runners_pipeline q) handed_over in
          inl (q, id, is_order.sound id q listed, named, handed_over, end, result)
      | inl missing ↦
          let (nothing, same) =
            dispatch_pipeline_missing order new_id now name source s is_order keyed missing in
          inr (
            λ id q stored.
                find_by_name-none name order missing id q (is_order.complete id q stored),
            nothing,
            same,
          )
    ]
