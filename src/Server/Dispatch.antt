-- ===== src/Server/Dispatch.antt =====
-- cmd/server/server.go, dispatchPipeline: a pipeline is looked up by name, a run is created and
-- made the active one of the name, and the pipeline is handed to the pool.
use lp.Base.{
  ℕ, Option-cases, ◌++◌, String, List, [], ◌∷◌, Option, none, some, ◌<>◌, ◌≡◌, refl, sym, ◌∙◌, ap,
  inl, inr, eq_refl, arith, length, length-map, replicate,
}
use lp.Base.Dict.{Dict, IsOrder, get-put}
use lp.Base.Dict
use lp.Errors.{GoError}
use lp.Logging.{text, failure, cat_pipeline}
use lp.Logging
use lp.Pipeline.Definition.{PipelineDef, to_runners_pipeline, to_runner_step}
use lp.Pipeline.Run.{Run, pending_step, finish, new_run}
use lp.Pipeline.Store.{
  Store, ids_of, ok, err, find_by_name, get_pipeline_by_name, create_run, update_run,
}
use lp.Pipeline.Store.Runs.{find_by_name_sound}
use lp.Runners.Step.{Pipeline}
use lp.Server.State.{Server, note}
use lp.Server.Follow.{Follows}

-- What follows the lookup and the creation of the run, with the result of Pool.Submit: none if the
-- pipeline was handed over, which is then the second result.
unfoldable pub submit_run :
    ℕ
    → String
    → String
    → Option GoError
    → PipelineDef
    → Run × Store
    → Server
    → Server × Option Pipeline
submit_run now name source none p (run, store) s = (
  record s {
    tracked = record { store = store; active_runs = Dict.put s.tracked.active_runs name run.id };
  },
  some (to_runners_pipeline p),
)
submit_run now name source (some e) p (run, store) s = (
  note
      (Logging.error now cat_pipeline "server" (source <> " submit failed")
        (("pipeline", text name) ∷ ("error", failure e) ∷ []))
      (record s {
        tracked = record {
          store = update_run run.id (finish now (some e)) store;
          active_runs = Dict.put s.tracked.active_runs name run.id;
        };
      }),
  none,
)

-- dispatchPipeline, given the order in which the lookup visits the pipelines, the ID that newID
-- returns, and the result of Pool.Submit.
unfoldable pub dispatch_pipeline :
    List (String × PipelineDef)
    → String
    → ℕ
    → Option GoError
    → String
    → String
    → Server
    → Server × Option Pipeline
unfolding submit_run
dispatch_pipeline order new_id now submitted name source s =
    elim (get_pipeline_by_name order name) [
      | err e ↦ (
        note
            (Logging.error now cat_pipeline "server" (source <> " target not found")
              (("pipeline", text name) ∷ ("error", failure e) ∷ []))
            s,
        none,
      )
      | ok p ↦ elim (create_run new_id p.id s.tracked.store) [
        | err e ↦ (s, none)
        | ok (run, store) ↦ submit_run now name source submitted p (run, store) s
      ]
    ]

none-ne-some : {A : Type 0} {a : A} → none ≡ some a → ⊥
none-ne-some h = cc

some_inj : {A : Type 0} {a b : A} → some a ≡ some b → a ≡ b
some_inj h = cc

-- Every pipeline of the store is kept under its own ID.
abbrev pub IsKeyed : Store → Type 0
IsKeyed s = (k : String) (p : PipelineDef) → Dict.get s.pipelines k ≡ some p → p.id ≡ k

module _ (order : List (String × PipelineDef)) (new_id : String) (now : ℕ) (name source : String)
    (s : Server) (is_order : IsOrder order s.tracked.store.pipelines)
    (keyed : IsKeyed s.tracked.store) where
  unfoldable pub handed : PipelineDef → Server
  unfolding new_run
  handed q = record s {
    tracked = record {
      store = record s.tracked.store {
        runs = Dict.put s.tracked.store.runs new_id (new_run new_id q.id (length q.steps));
        by_pipeline =
            Dict.put s.tracked.store.by_pipeline q.id
              (ids_of (Dict.get s.tracked.store.by_pipeline q.id) ++ new_id ∷ []);
      };
      active_runs = Dict.put s.tracked.active_runs name new_id;
    };
  }

  found_stored :
      (q : PipelineDef)
      → find_by_name name order ≡ some q
      → Dict.get s.tracked.store.pipelines q.id ≡ some q
  found_stored q found =
      let (same, id, in_order) = find_by_name_sound name order q found in
      let stored = is_order.sound id q in_order in
      ap (Dict.get s.tracked.store.pipelines) (keyed id q stored) ∙ stored

  -- Of a pipeline that is found, a run is made, and the pipeline is handed over.
  pub dispatch_pipeline_found :
      (q : PipelineDef)
      → find_by_name name order ≡ some q
      → dispatch_pipeline order new_id now none name source s
        ≡ (handed q, some (to_runners_pipeline q))
  unfolding dispatch_pipeline handed get_pipeline_by_name create_run
  dispatch_pipeline_found q found = ground (arith, found, found_stored q found)

  -- Without a pipeline of the name, nothing is handed over and no run changes.
  pub dispatch_pipeline_missing :
      find_by_name name order ≡ none
      → ((dispatch_pipeline order new_id now none name source s).1 ≡ none)
        × ((dispatch_pipeline order new_id now none name source s).0.tracked ≡ s.tracked)
  unfolding dispatch_pipeline get_pipeline_by_name note
  dispatch_pipeline_missing missing = (ground (arith, missing), ground (arith, missing))

  handed-Follows :
      (q : PipelineDef)
      → Follows name new_id s.tracked
          (handed q).tracked
          (replicate (length (to_runners_pipeline q).steps) pending_step)
  unfolding handed to_runners_pipeline
  handed-Follows q = record {
    run = new_run new_id q.id (length q.steps);
    active = rw (get-put s.tracked.active_runs name name new_id, eq_refl name) refl;
    stored =
        rw
          (
            get-put s.tracked.store.runs new_id new_id (new_run new_id q.id (length q.steps)),
            eq_refl new_id,
          )
          refl;
    records = rw (length-map to_runner_step q.steps) refl;
    no_error = refl;
    others = λ j h.
        rw (get-put s.tracked.store.runs new_id j (new_run new_id q.id (length q.steps)), h) refl;
  }

  -- If every pipeline is kept under its own ID and the lookup visits them all, and dispatchPipeline
  -- hands a pipeline to the pool, then that pipeline has the name that was asked for, and the name's
  -- active run is the one under the new ID, with one pending record for each step and no error;
  -- every run under another ID is as before.
  pub dispatch_pipeline-Follows :
      (p : Pipeline)
      → (dispatch_pipeline order new_id now none name source s).1 ≡ some p
      → (p.name ≡ name)
        × Follows name new_id s.tracked
            (dispatch_pipeline order new_id now none name source s).0.tracked
            (replicate (length p.steps) pending_step)
  dispatch_pipeline-Follows p h = elim (Option-cases (find_by_name name order)) [
    | inl missing ↦ absurd (none-ne-some (sym (dispatch_pipeline_missing missing).0 ∙ h))
    | inr (q, found) ↦
        let e : to_runners_pipeline q ≡ p = some_inj (
          sym (ap (λ (r : Server × Option Pipeline). r.1) (dispatch_pipeline_found q found)) ∙ h) in
        (
          rw (← e) (unfold to_runners_pipeline in (find_by_name_sound name order q found).0),
          rw (dispatch_pipeline_found q found, ← e) (handed-Follows q),
        )
  ]
