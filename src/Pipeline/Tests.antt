-- ===== src/Pipeline/Tests.antt =====
-- The theorems about the store and the IDs at concrete inputs.
use mathlib.Core.Path.{subst}
use lp.Base.{
  true, sym, str_eq-cases, ℕ, ◌≤◌, String, List, [], ◌∷◌, ◌++◌, none, some, ◌≡◌, refl, ap, ◌⊎◌, inl,
  inr, Elem, length, get_elem?, str_eq, eq_iff, arith, if◌then◌else◌,
}
use lp.Base.Dict
use lp.Base.Dict.{Dict, IsOrder}
use lp.Pipeline.Definition.{PipelineDef}
use lp.Pipeline.Id.{new_id, new_id_form}
use lp.Pipeline.Run.{Run, new_run}
use lp.Pipeline.Store.{
  Store, ids_of, ok, get_pipeline_by_name, create_run, runs_for, replace_pipelines,
}
use lp.Pipeline.Store.Migrate.{with_pipeline}
use lp.Pipeline.Store.Replace.{pipelines_by_id}
use lp.Pipeline.Store.History.{IsNamed, replace_pipelines-keeps}
use lp.Pipeline.Store.Runs.{IsIndexed, get_pipeline_by_name_lem, create_run_lem}

abbrev build_def : PipelineDef
build_def = record {
  id = "p1";
  name = "build";
  steps =
      record { name = "compile"; command = "true"; args = []; dir = ""; env = []; emit = [] } ∷ [];
  emit = [];
}

abbrev one_run : Run
unfolding new_run
one_run = new_run "r1" "p1" 1

-- One pipeline with one run.
abbrev one_pipeline : Store
one_pipeline = record {
  pipelines = record { entries = ("p1", build_def) ∷ [] };
  runs = record { entries = ("r1", one_run) ∷ [] };
  by_pipeline = record { entries = ("p1", "r1" ∷ []) ∷ [] };
}

abbrev build_order : List (String × PipelineDef)
build_order = ("p1", build_def) ∷ []

one_entry :
    (k : String) (v : PipelineDef)
    → Elem (k, v) build_order
    → Dict.get one_pipeline.pipelines k ≡ some v
unfolding Dict.get
one_entry k v (inl e) = ground (
  arith,
  eq_iff "p1" k,
  ap (λ (x : String × PipelineDef). x.0) e,
  ap (λ (x : String × PipelineDef). x.1) e,
)
one_entry k v (inr e) = absurd e

build_order-IsOrder : IsOrder build_order one_pipeline.pipelines
unfolding Dict.get
build_order-IsOrder = record {
  sound = one_entry;
  complete = λ k v h. inl (ground (arith, eq_iff "p1" k));
}

stored_build : Dict.get one_pipeline.pipelines "p1" ≡ some build_def
unfolding Dict.get
stored_build = refl

get_pipeline_by_name_lem_example :
    (q : PipelineDef) × (get_pipeline_by_name build_order build_def.name ≡ ok q)
    × (q.name ≡ build_def.name)
    × ((jd : String) × (Dict.get one_pipeline.pipelines jd ≡ some q))
get_pipeline_by_name_lem_example =
    get_pipeline_by_name_lem build_order one_pipeline "p1" build_def build_order-IsOrder
      stored_build

indexed_sound :
    (pid rid : String)
    → Elem rid (ids_of (Dict.get one_pipeline.by_pipeline pid))
    → (r : Run) × (Dict.get one_pipeline.runs rid ≡ some r) × (r.pipeline_id ≡ pid)
unfolding Dict.get new_run
indexed_sound pid rid m = elim (str_eq-cases "p1" pid) [
  | inl e ↦
      let same : str_eq "p1" pid ≡ true = (eq_iff "p1" pid).1 e in
      elim (rw same at m) [
        | inl q ↦ (one_run, ground (arith, eq_iff "r1" rid, q), e)
        | inr none_left ↦ absurd none_left
      ]
  | inr e ↦ absurd (rw e at m)
]

indexed_complete :
    (rid : String) (r : Run)
    → Dict.get one_pipeline.runs rid ≡ some r
    → Elem rid (ids_of (Dict.get one_pipeline.by_pipeline r.pipeline_id))
unfolding Dict.get new_run
indexed_complete rid r h =
    let e : one_run ≡ r = ground (arith, eq_iff "r1" rid) in
    let id : ◌≡◌ {A = String} "r1" rid = ground (arith, eq_iff "r1" rid) in
    subst (λ (x : Run). Elem rid (ids_of (Dict.get one_pipeline.by_pipeline x.pipeline_id))) e
      (inl (sym id))

one_pipeline-IsIndexed : IsIndexed one_pipeline
one_pipeline-IsIndexed = record { sound = indexed_sound; complete = indexed_complete }

fresh_id : Dict.get one_pipeline.runs "r2" ≡ none
unfolding Dict.get
fresh_id = refl

create_run_lem_example :
    (r : Run) × (t : Store) × (create_run "r2" "p1" one_pipeline ≡ ok (r, t))
    × (length r.steps ≡ length build_def.steps)
    × ((q : String)
        → runs_for q t ≡ (
            if str_eq "p1" q
            then runs_for "p1" one_pipeline ++ r ∷ []
            else runs_for q one_pipeline))
    × IsIndexed t
create_run_lem_example =
    create_run_lem "r2" "p1" build_def one_pipeline stored_build fresh_id one_pipeline-IsIndexed

new_id_form_example :
    let id =
      new_id (0 ∷ 1 ∷ 2 ∷ 3 ∷ 4 ∷ 5 ∷ 255 ∷ 7 ∷ 255 ∷ 9 ∷ 10 ∷ 11 ∷ 12 ∷ 13 ∷ 14 ∷ 15 ∷ []) in
    (length id ≡ 36)
    × (get_elem? id 8 ≡ some b'-')
    × (get_elem? id 13 ≡ some b'-')
    × (get_elem? id 14 ≡ some b'4')
    × (get_elem? id 18 ≡ some b'-')
    × ((d : ℕ) × (get_elem? id 19 ≡ some d)
        × (((b'8' ≤ d) × (d ≤ b'9')) ⊎ ((b'a' ≤ d) × (d ≤ b'b'))))
    × (get_elem? id 23 ≡ some b'-')
new_id_form_example =
    new_id_form 0 1 2 3 4 5 255 7 255 9 10 11 12 13 14 15 (omega arith) (omega arith)

abbrev new_build : PipelineDef
new_build = record build_def { id = "p2" }

one_pipeline-IsNamed : IsNamed one_pipeline
unfolding Dict.get
one_pipeline-IsNamed = record {
  keyed = λ k p h. ground (arith, eq_iff "p1" k);
  distinct = λ k j p q hk hj same. ground (arith, eq_iff "p1" k, eq_iff "p1" j);
}

not_stored : Dict.get one_pipeline.pipelines "p2" ≡ none
unfolding Dict.get
not_stored = refl

stored_run : Dict.get one_pipeline.runs "r1" ≡ some one_run
unfolding Dict.get
stored_run = refl

replace_pipelines-keeps_example :
    let after = replace_pipelines build_order (new_build ∷ []) one_pipeline in
    (Dict.get after.runs "r1" ≡ some (with_pipeline "p2" one_run))
    × Elem "r1" (ids_of (Dict.get after.by_pipeline "p2"))
    × IsIndexed after
    × (after.pipelines ≡ pipelines_by_id (new_build ∷ []) Dict.empty)
unfolding new_run
replace_pipelines-keeps_example =
    replace_pipelines-keeps one_pipeline build_order one_pipeline-IsNamed build_order-IsOrder
      (new_build ∷ []) "p1" new_build build_def "r1" one_run one_pipeline-IsIndexed (tt, tt)
      (inl refl) not_stored stored_build refl stored_run refl
