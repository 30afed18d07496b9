-- ===== src/Pipeline/Store/Runs.antt =====
-- internal/pipeline/store.go: lookups by name, and the index of runs by pipeline.
use mathlib.Core.Path.{subst}
use lp.Base.{
  String, false, List, [], ◌∷◌, ◌++◌, none, some, ◌≡◌, ◌≢◌, refl, sym, ◌∙◌, ap, inl, inr, All, Elem,
  Elem-append_left, Elem-append_right, Elem-append_cases, Bool-cases, Option-cases, str_eq-cases,
  length, length-replicate, str_eq, eq_iff, eq_refl, arith, if◌then◌else◌,
}
use lp.Base.Dict
use lp.Base.Dict.{IsOrder, get-put}
use lp.Pipeline.Definition.{PipelineDef}
use lp.Pipeline.Run.{Run, pending_step, new_run}
use lp.Pipeline.Store.{
  Store, ok, ids_of, find_by_name, get_pipeline_by_name, create_run, collect_runs, runs_for,
}

-- The runs that RunsFor finds under a pipeline's ID are those that name it.
pub record IsIndexed (s : Store) : Type 0 where
  pub sound :
      (pid rid : String)
      → Elem rid (ids_of (Dict.get s.by_pipeline pid))
      → (r : Run) × (Dict.get s.runs rid ≡ some r) × (r.pipeline_id ≡ pid)
  pub complete :
      (rid : String) (r : Run)
      → Dict.get s.runs rid ≡ some r
      → Elem rid (ids_of (Dict.get s.by_pipeline r.pipeline_id))

pub find_by_name-none :
    (name : String) (order : List (String × PipelineDef))
    → find_by_name name order ≡ none
    → (id : String) (p : PipelineDef) → Elem (id, p) order
    → p.name ≢ name
unfolding find_by_name
find_by_name-none name [] h id p e = absurd e
find_by_name-none name ((jd, q) ∷ rest) h id p (inl e) =
    ground (arith, eq_iff q.name name, ap (λ (x : String × PipelineDef). x.1) e)
find_by_name-none name ((jd, q) ∷ rest) h id p (inr e) =
    find_by_name-none name rest (ground arith) id p e

pub find_by_name_sound :
    (name : String) (order : List (String × PipelineDef)) (p : PipelineDef)
    → find_by_name name order ≡ some p
    → (p.name ≡ name) × (id : String) × Elem (id, p) order
unfolding find_by_name
find_by_name_sound name [] p h = cc
find_by_name_sound name ((id, q) ∷ rest) p h = elim (Bool-cases (str_eq q.name name)) [
  | inl same ↦
      let e : q ≡ p = ground arith in
      (ground (arith, eq_iff q.name name), id, inl (ap (λ (x : PipelineDef). (id, x)) (sym e)))
  | inr other ↦
      let found = find_by_name_sound name rest p (ground arith) in (found.0, found.1, inr found.2)
]

-- In whatever order GetPipelineByName visits the pipelines: if some pipeline of the store has a
-- name, the lookup of that name succeeds, with a pipeline of the store that has it.
pub get_pipeline_by_name_lem :
    (order : List (String × PipelineDef)) (s : Store) (id : String) (p : PipelineDef)
    → IsOrder order s.pipelines
    → Dict.get s.pipelines id ≡ some p
    → (q : PipelineDef) × (get_pipeline_by_name order p.name ≡ ok q)
      × (q.name ≡ p.name)
      × ((jd : String) × (Dict.get s.pipelines jd ≡ some q))
unfolding get_pipeline_by_name
get_pipeline_by_name_lem order s id p o h = elim (Option-cases (find_by_name p.name order)) [
  | inl missing ↦ absurd (find_by_name-none p.name order missing id p (o.complete id p h) refl)
  | inr (q, found) ↦
      let (same, jd, e) = find_by_name_sound p.name order q found in
      (q, rw found refl, same, (jd, o.sound jd q e))
]

collect_runs-put :
    (ids : List String) (runs : Dict.Dict Run) (rid : String) (r : Run)
    → All (λ id. str_eq rid id ≡ false) ids
    → collect_runs ids (Dict.put runs rid r) ≡ collect_runs ids runs
unfolding collect_runs
collect_runs-put [] runs rid r h = refl
collect_runs-put (id ∷ ids) runs rid r (h, hs) =
    ground (arith, get-put runs rid id r, collect_runs-put ids runs rid r hs)

collect_runs-append :
    (xs ys : List String) (runs : Dict.Dict Run)
    → collect_runs (xs ++ ys) runs ≡ collect_runs xs runs ++ collect_runs ys runs
unfolding collect_runs
collect_runs-append [] ys runs = refl
collect_runs-append (x ∷ xs) ys runs = ground (arith, collect_runs-append xs ys runs)

-- IDs of runs that exist differ from one that does not.
others-fresh :
    (s : Store) (rid : String) (ids : List String)
    → Dict.get s.runs rid ≡ none
    → ((id : String) → Elem id ids → (r : Run) × (Dict.get s.runs id ≡ some r))
    → All (λ id. str_eq rid id ≡ false) ids
others-fresh s rid [] fresh h = tt
others-fresh s rid (id ∷ ids) fresh h = (
  elim (str_eq-cases rid id) [
    | inl e ↦
        let (r, q) = h id (inl refl) in
        absurd (none-ne-some (sym fresh ∙ ap (Dict.get s.runs) e ∙ q))
    | inr e ↦ e
  ],
  others-fresh s rid ids fresh (λ j m. h j (inr m)),
)
  where
    none-ne-some : {r : Run} → none ≡ some r → ⊥
    none-ne-some e = cc

module _ (new_id pid : String) (p : PipelineDef) (s : Store)
    (known : Dict.get s.pipelines pid ≡ some p) (fresh : Dict.get s.runs new_id ≡ none)
    (indexed : IsIndexed s) where
  created : Run
  created = new_run new_id pid (length p.steps)

  old_ids : List String
  old_ids = ids_of (Dict.get s.by_pipeline pid)

  store : Store
  unfolding created old_ids
  store = record s {
    runs = Dict.put s.runs new_id created;
    by_pipeline = Dict.put s.by_pipeline pid (old_ids ++ new_id ∷ []);
  }

  ids_after :
      (q : String)
      → ids_of (Dict.get store.by_pipeline q)
        ≡ (if str_eq pid q then old_ids ++ new_id ∷ [] else ids_of (Dict.get s.by_pipeline q))
  unfolding store
  ids_after q = rw (get-put s.by_pipeline pid q (old_ids ++ new_id ∷ [])) (ground arith)

  ids_other :
      (q : String)
      → str_eq pid q ≡ false
      → ids_of (Dict.get store.by_pipeline q) ≡ ids_of (Dict.get s.by_pipeline q)
  ids_other q h = ground (arith, ids_after q)

  runs_after :
      (j : String)
      → Dict.get store.runs j ≡ (if str_eq new_id j then some created else Dict.get s.runs j)
  unfolding store
  runs_after j = get-put s.runs new_id j created

  old_ones : (q : String) → All (λ id. str_eq new_id id ≡ false) (ids_of (Dict.get s.by_pipeline q))
  old_ones q = others-fresh s new_id _ fresh λ id m. let (r, e, _) = indexed.sound q id m in (r, e)

  runs_for_other :
      (other : String) → str_eq pid other ≡ false → runs_for other store ≡ runs_for other s
  unfolding runs_for
  runs_for_other other h =
      rw (ids_after other, h)
        (unfold store in collect_runs-put _ s.runs new_id created (old_ones other))

  front_part : collect_runs old_ids store.runs ≡ collect_runs old_ids s.runs
  unfolding store old_ids
  front_part = collect_runs-put _ s.runs new_id created (old_ones pid)

  last_part : collect_runs (new_id ∷ []) store.runs ≡ created ∷ []
  unfolding collect_runs
  last_part = ground (arith, runs_after new_id, eq_refl new_id)

  ids_self : ids_of (Dict.get store.by_pipeline pid) ≡ old_ids ++ new_id ∷ []
  ids_self = ground (arith, ids_after pid, eq_refl pid)

  runs_for_self : runs_for pid store ≡ runs_for pid s ++ created ∷ []
  unfolding runs_for old_ids
  runs_for_self =
      ap (λ (ids : List String). collect_runs ids store.runs) ids_self
      ∙ collect_runs-append old_ids (new_id ∷ []) store.runs
      ∙ cc (front_part, last_part)

  kept :
      (q rid : String)
      → Elem rid (ids_of (Dict.get s.by_pipeline q))
      → (r : Run) × (Dict.get store.runs rid ≡ some r) × (r.pipeline_id ≡ q)
  kept q rid m =
      let (r, e, named) = indexed.sound q rid m in
      (r, ground (arith, runs_after rid, eq_iff new_id rid, e, fresh), named)

  sound_after :
      (q rid : String)
      → Elem rid (ids_of (Dict.get store.by_pipeline q))
      → (r : Run) × (Dict.get store.runs rid ≡ some r) × (r.pipeline_id ≡ q)
  sound_after q rid m = elim (str_eq-cases pid q) [
    | inl same ↦
        subst (λ (x : String). (r : Run) × (Dict.get store.runs rid ≡ some r) × (r.pipeline_id ≡ x))
          same
          (elim (Elem-append_cases rid old_ids (new_id ∷ []) (in_self same)) [
            | inl old ↦ kept pid rid (unfold old_ids in old)
            | inr (inl e) ↦ (
              created,
              ground (arith, runs_after rid, eq_iff new_id rid, e),
              unfold created new_run in refl,
            )
            | inr (inr e) ↦ absurd e
          ])
    | inr other ↦ kept q rid (subst (Elem rid) (ids_other q other) m)
  ]
    where
      in_self : pid ≡ q → Elem rid (old_ids ++ new_id ∷ [])
      in_self same =
          subst (Elem rid) ids_self
            (subst (λ (x : String). Elem rid (ids_of (Dict.get store.by_pipeline x))) (sym same) m)

  complete_after :
      (rid : String) (r : Run)
      → Dict.get store.runs rid ≡ some r
      → Elem rid (ids_of (Dict.get store.by_pipeline r.pipeline_id))
  complete_after rid r h = elim (str_eq-cases new_id rid) [
    | inl same ↦
        let e : created ≡ r = ground (arith, runs_after rid, eq_iff new_id rid, same, h) in
        subst (λ (x : Run). Elem rid (ids_of (Dict.get store.by_pipeline x.pipeline_id))) e
          (subst (Elem rid) (sym at_created)
            (Elem-append_right rid old_ids (new_id ∷ []) (inl (sym same))))
    | inr other ↦ still r.pipeline_id (indexed.complete rid r (ground (arith, runs_after rid)))
  ]
    where
      at_created : ids_of (Dict.get store.by_pipeline created.pipeline_id) ≡ old_ids ++ new_id ∷ []
      at_created = unfold created new_run in ids_self

      still :
          (q : String)
          → Elem rid (ids_of (Dict.get s.by_pipeline q))
          → Elem rid (ids_of (Dict.get store.by_pipeline q))
      still q m = elim (str_eq-cases pid q) [
        | inl e ↦
            subst (λ (x : String). Elem rid (ids_of (Dict.get store.by_pipeline x))) e
              (subst (Elem rid) (sym ids_self) (
                Elem-append_left rid old_ids (new_id ∷ []) (
                  unfold old_ids in
                  subst (λ (x : String). Elem rid (ids_of (Dict.get s.by_pipeline x))) (sym e) m)))
        | inr h ↦ subst (Elem rid) (sym (ids_other q h)) m
      ]

  runs_for_after :
      (q : String)
      → runs_for q store ≡ (if str_eq pid q then runs_for pid s ++ created ∷ [] else runs_for q s)
  runs_for_after q = elim (str_eq-cases pid q) [
    | inl same ↦
        subst
          (λ (x : String).
            runs_for x store
            ≡ (if str_eq pid x then runs_for pid s ++ created ∷ [] else runs_for x s))
          same (rw (eq_refl pid) runs_for_self)
    | inr other ↦ rw other (runs_for_other q other)
  ]

  -- CreateRun for a known pipeline, under an ID that no run has, succeeds on a store whose index is
  -- right: RunsFor shows the new run, with a record for each step, behind the earlier runs of the
  -- pipeline, shows the runs of every other pipeline as before, and the index stays right.
  pub create_run_lem :
      (r : Run) × (t : Store) × (create_run new_id pid s ≡ ok (r, t))
      × (length r.steps ≡ length p.steps)
      × ((q : String)
          → runs_for q t ≡ (if str_eq pid q then runs_for pid s ++ r ∷ [] else runs_for q s))
      × IsIndexed t
  unfolding create_run store created old_ids new_run
  create_run_lem = (
    created,
    store,
    ground (arith, known),
    length-replicate (length p.steps) pending_step,
    runs_for_after,
    record { sound = sound_after; complete = complete_after },
  )
