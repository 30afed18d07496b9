-- ===== src/Pipeline/Store.antt =====
-- internal/pipeline/store.go. A run is a pointer that the store and the server share: here the runs
-- live in the store under their IDs, and a reference to a run is its ID. A method that takes the
-- lock is one step. Where the source ranges over a map, the order of the visit is an argument.
pub mod Runs
pub mod Migrate
pub mod Replace
pub mod History
use lp.Base.{
  ℕ, String, List, [], ◌∷◌, ◌++◌, map, Option, none, some, Bool, str_eq, not, ◌&&◌, length,
  if◌then◌else◌,
}
use lp.Base.Dict.{Dict}
use lp.Base.Dict
use lp.Errors.{GoError, pipeline_not_found, pipeline_name_not_found, run_not_found}
use lp.Pipeline.Definition.{PipelineDef}
use lp.Pipeline.Run.{Run, new_run}

-- Store
pub record Store : Type 0 where
  pub pipelines : Dict PipelineDef
  pub runs : Dict Run
  pub by_pipeline : Dict (List String)

-- A value or an error.
pub data Fallible (A : Type 0) : Type 0 where
  ok : A → Fallible A
  err : GoError → Fallible A

-- s.byPipeline[id], nil for a missing key
abbrev pub ids_of : Option (List String) → List String
ids_of none = []
ids_of (some ids) = ids

abbrev pub or_err : {A : Type 0} → Option A → GoError → Fallible A
or_err none e = err e
or_err (some a) e = ok a

-- NewStore
unfoldable pub new_store : Store
new_store = record { pipelines = Dict.empty; runs = Dict.empty; by_pipeline = Dict.empty }

-- AddPipeline
unfoldable pub add_pipeline : PipelineDef → Store → Store
add_pipeline p s = record s { pipelines = Dict.put s.pipelines p.id p }

-- GetPipeline
unfoldable pub get_pipeline : String → Store → Fallible PipelineDef
get_pipeline id s = or_err (Dict.get s.pipelines id) (pipeline_not_found id)

-- The loop of GetPipelineByName
unfoldable pub find_by_name : String → List (String × PipelineDef) → Option PipelineDef
find_by_name name [] = none
find_by_name name ((_, p) ∷ rest) =
    let later = find_by_name name rest in if str_eq p.name name then some p else later

-- GetPipelineByName
unfoldable pub get_pipeline_by_name : List (String × PipelineDef) → String → Fallible PipelineDef
unfolding find_by_name
get_pipeline_by_name order name = or_err (find_by_name name order) (pipeline_name_not_found name)

-- Pipelines
unfoldable pub pipelines : List (String × PipelineDef) → List PipelineDef
pipelines order = map (λ (e : String × PipelineDef). e.1) order

-- The loop that builds oldByName
unfoldable pub old_by_name : List (String × PipelineDef) → Dict String → Dict String
old_by_name [] names = names
old_by_name ((_, p) ∷ rest) names = old_by_name rest (Dict.put names p.name p.id)

-- The loop that points runs at the new pipeline
unfoldable pub repoint : String → List String → Dict Run → Dict Run
repoint pid [] runs = runs
repoint pid (rid ∷ rids) runs = repoint pid rids (elim (Dict.get runs rid) [
  | none ↦ runs
  | some r ↦ Dict.put runs rid (record r { pipeline_id = pid })
])

-- The migration of the run history of one pipeline, from the old ID to the new one
unfoldable pub migrate : String → String → Store → Store
unfolding repoint
migrate old_id new_id s = elim (Dict.get s.by_pipeline old_id) [
  | none ↦ s
  | some run_ids ↦ record s {
    by_pipeline =
        Dict.delete
          (Dict.put s.by_pipeline new_id (ids_of (Dict.get s.by_pipeline new_id) ++ run_ids))
          old_id;
    runs = repoint new_id run_ids s.runs;
  }
]

-- One round of the loop over the new pipelines, but for the write to `fresh`
unfoldable pub migrate_pipeline : Dict String → PipelineDef → Store → Store
unfolding migrate
migrate_pipeline names p s = elim (Dict.get names p.name) [
  | none ↦ s
  | some old_id ↦ if str_eq old_id p.id then s else migrate old_id p.id s
]

-- The loop over the new pipelines
unfoldable pub migrate_all : Dict String → List PipelineDef → Dict PipelineDef → Store → Store
unfolding migrate_pipeline
migrate_all names [] fresh s = record s { pipelines = fresh }
migrate_all names (p ∷ ps) fresh s =
    migrate_all names ps (Dict.put fresh p.id p) (migrate_pipeline names p s)

-- ReplacePipelines
unfoldable pub replace_pipelines : List (String × PipelineDef) → List PipelineDef → Store → Store
unfolding old_by_name migrate_all
replace_pipelines order new_pipelines s =
    migrate_all (old_by_name order Dict.empty) new_pipelines Dict.empty s

-- CreateRun, given the ID that newID returns
unfoldable pub create_run : String → String → Store → Fallible (Run × Store)
create_run new_id pipeline_id s = elim (Dict.get s.pipelines pipeline_id) [
  | none ↦ err (pipeline_not_found pipeline_id)
  | some p ↦
      let run : Run = new_run new_id pipeline_id (length p.steps) in
      ok (
        run,
        record s {
          runs = Dict.put s.runs run.id run;
          by_pipeline =
              Dict.put s.by_pipeline pipeline_id
                (ids_of (Dict.get s.by_pipeline pipeline_id) ++ run.id ∷ []);
        },
      )
]

-- GetRun
unfoldable pub get_run : String → Store → Fallible Run
get_run id s = or_err (Dict.get s.runs id) (run_not_found id)

-- The loop of RunsFor
unfoldable pub collect_runs : List String → Dict Run → List Run
collect_runs [] runs = []
collect_runs (id ∷ ids) runs = elim (Dict.get runs id) [
  | none ↦ collect_runs ids runs
  | some r ↦ r ∷ collect_runs ids runs
]

-- RunsFor
unfoldable pub runs_for : String → Store → List Run
unfolding collect_runs
runs_for pipeline_id s = collect_runs (ids_of (Dict.get s.by_pipeline pipeline_id)) s.runs

-- A method of the run under an ID, which changes the shared run.
unfoldable pub update_run : String → (Run → Run) → Store → Store
update_run id f s = elim (Dict.get s.runs id) [
  | none ↦ s
  | some r ↦ record s { runs = Dict.put s.runs id (f r) }
]
