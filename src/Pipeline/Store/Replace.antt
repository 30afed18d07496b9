-- ===== src/Pipeline/Store/Replace.antt =====
-- internal/pipeline/store.go, ReplacePipelines: the loop over the new pipelines.
use mathlib.Core.Path.{subst}
use lp.Base.{
  String, false, List, [], ◌∷◌, Option, none, some, ◌≡◌, refl, sym, ◌∙◌, ap, inl, inr, Elem,
  Option-cases, str_eq-cases, str_eq, eq_iff, arith, if◌then◌else◌,
}
use lp.Base.Dict
use lp.Base.Dict.{Dict, IsOrder, get-put, get-delete, get-empty}
use lp.Pipeline.Definition.{PipelineDef}
use lp.Pipeline.Run.{Run}
use lp.Pipeline.Store.{Store, ids_of, migrate, migrate_pipeline, migrate_all}
use lp.Pipeline.Store.Runs.{IsIndexed}
use lp.Pipeline.Store.Migrate.{with_pipeline, migrate-moved, moved_run, moved-IsIndexed}

-- Where a run of a pipeline goes in one round of the loop over the new pipelines
abbrev pub moved_by : Option String → PipelineDef → String → String
moved_by none p pid = pid
moved_by (some old_id) p pid = if str_eq old_id pid then p.id else pid

-- A round keeps the index right, and moves the runs of the old pipeline of the name.
record Migrates (names : Option String) (p : PipelineDef) (s t : Store) : Type 0 where
  pub index : IsIndexed t
  pub run_of :
      (rid : String) (r : Run)
      → Dict.get s.runs rid ≡ some r
      → Dict.get t.runs rid ≡ some (with_pipeline (moved_by names p r.pipeline_id) r)

migrate-Migrates :
    (s : Store) (old_id : String) (p : PipelineDef)
    → IsIndexed s
    → str_eq old_id p.id ≡ false
    → Migrates (some old_id) p s (migrate old_id p.id s)
migrate-Migrates s old_id p indexed different =
    elim (Option-cases (Dict.get s.by_pipeline old_id)) [
      | inr (run_ids, had) ↦
          subst (Migrates (some old_id) p s)
            (sym (migrate-moved s indexed old_id p.id different run_ids had))
            (record {
              index = moved-IsIndexed s indexed old_id p.id different run_ids had;
              run_of = moved_run s indexed old_id p.id different run_ids had;
            })
      | inl missing ↦
          subst (Migrates (some old_id) p s) (sym (migrate_missing missing))
            (record { index = indexed; run_of = still missing })
    ]
  where
    migrate_missing : Dict.get s.by_pipeline old_id ≡ none → migrate old_id p.id s ≡ s
    migrate_missing missing = unfold migrate in ground (arith, missing)

    still :
        Dict.get s.by_pipeline old_id ≡ none
        → (rid : String) (r : Run) → Dict.get s.runs rid ≡ some r
        → Dict.get s.runs rid ≡ some (with_pipeline (moved_by (some old_id) p r.pipeline_id) r)
    still missing rid r stored = elim (str_eq-cases old_id r.pipeline_id) [
      | inl same ↦ absurd (
          subst (λ o. Elem rid (ids_of o)) (ap (Dict.get s.by_pipeline) (sym same) ∙ missing)
            (indexed.complete rid r stored))
      | inr other ↦ ground (arith, other, stored)
    ]

migrate_named-Migrates :
    (names : Dict String) (named : Option String) (p : PipelineDef) (s : Store)
    → Dict.get names p.name ≡ named
    → IsIndexed s
    → Migrates named p s (migrate_pipeline names p s)
migrate_named-Migrates names none p s e indexed =
    let idle : s ≡ migrate_pipeline names p s = unfold migrate_pipeline in ground (arith, e) in
    subst (Migrates none p s) idle (record { index = indexed; run_of = λ rid r stored. stored })
migrate_named-Migrates names (some old_id) p s e indexed = elim (str_eq-cases old_id p.id) [
  | inl same ↦
      let idle : s ≡ migrate_pipeline names p s =
        unfold migrate_pipeline in ground (arith, e, (eq_iff old_id p.id).1 same) in
      subst (Migrates (some old_id) p s) idle
        (record { index = indexed; run_of = λ rid r stored. same_pipeline same rid r stored })
  | inr different ↦
      let moves : migrate old_id p.id s ≡ migrate_pipeline names p s =
        unfold migrate_pipeline in ground (arith, e, different) in
      subst (Migrates (some old_id) p s) moves (migrate-Migrates s old_id p indexed different)
]
  where
    same_pipeline :
        old_id ≡ p.id
        → (rid : String) (r : Run) → Dict.get s.runs rid ≡ some r
        → Dict.get s.runs rid ≡ some (with_pipeline (moved_by (some old_id) p r.pipeline_id) r)
    same_pipeline same rid r stored = ground (arith, stored, same, eq_iff old_id r.pipeline_id)

-- Where a run of a pipeline goes in the loop over the new pipelines
unfoldable pub moved_to : Dict String → List PipelineDef → String → String
moved_to names [] pid = pid
moved_to names (p ∷ ps) pid = moved_to names ps (moved_by (Dict.get names p.name) p pid)

-- The new pipelines, under their IDs; of two with one ID the later stays.
unfoldable pub pipelines_by_id : List PipelineDef → Dict PipelineDef → Dict PipelineDef
pipelines_by_id [] fresh = fresh
pipelines_by_id (p ∷ ps) fresh = pipelines_by_id ps (Dict.put fresh p.id p)

pub migrate_all_lem :
    (names : Dict String) (ps : List PipelineDef) (fresh : Dict PipelineDef) (s : Store)
    → IsIndexed s
    → IsIndexed (migrate_all names ps fresh s)
      × ((migrate_all names ps fresh s).pipelines ≡ pipelines_by_id ps fresh)
unfolding migrate_all pipelines_by_id
migrate_all_lem names [] fresh s indexed =
    (record { sound = indexed.sound; complete = indexed.complete }, refl)
migrate_all_lem names (p ∷ ps) fresh s indexed =
    migrate_all_lem names ps (Dict.put fresh p.id p) (migrate_pipeline names p s)
      (migrate_named-Migrates names (Dict.get names p.name) p s refl indexed).index

pub migrate_all_run :
    (names : Dict String) (ps : List PipelineDef) (fresh : Dict PipelineDef) (s : Store)
    (rid : String) (r : Run)
    → IsIndexed s
    → Dict.get s.runs rid ≡ some r
    → Dict.get (migrate_all names ps fresh s).runs rid
      ≡ some (with_pipeline (moved_to names ps r.pipeline_id) r)
unfolding migrate_all moved_to
migrate_all_run names [] fresh s rid r indexed stored = stored
migrate_all_run names (p ∷ ps) fresh s rid r indexed stored =
    let round = migrate_named-Migrates names (Dict.get names p.name) p s refl indexed in
    migrate_all_run names ps (Dict.put fresh p.id p) (migrate_pipeline names p s) rid
      (with_pipeline (moved_by (Dict.get names p.name) p r.pipeline_id) r) round.index
      (round.run_of rid r stored)
