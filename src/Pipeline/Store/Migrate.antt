-- ===== src/Pipeline/Store/Migrate.antt =====
-- internal/pipeline/store.go, ReplacePipelines: the migration of the runs of one pipeline.
use mathlib.Core.Path.{subst}
use lp.Base.{
  String, Bool, true, false, List, [], ◌∷◌, ◌++◌, Option, none, some, ◌||◌, ◌≡◌, refl, sym, ◌∙◌, ap,
  inl, inr, ◌⊎◌, Elem, Elem-append_left, Elem-append_right, Elem-append_cases, Bool-cases,
  Option-cases, str_eq-cases, str_eq, eq_iff, eq_refl, arith, if◌then◌else◌,
}
use lp.Base.Dict
use lp.Base.Dict.{Dict, IsOrder, get-put, get-delete, get-empty}
use lp.Pipeline.Run.{Run}
use lp.Pipeline.Store.{Store, ids_of, repoint, migrate}
use lp.Pipeline.Store.Runs.{IsIndexed}

-- The list has the ID.
has_id : String → List String → Bool
has_id rid [] = false
has_id rid (x ∷ xs) = str_eq x rid || has_id rid xs

has_id-Elem : (rid : String) (ids : List String) → has_id rid ids ≡ true → Elem rid ids
unfolding has_id
has_id-Elem rid [] h = cc
has_id-Elem rid (x ∷ xs) h = elim (Bool-cases (str_eq x rid)) [
  | inl same ↦ inl (sym ((eq_iff x rid).0 same))
  | inr other ↦ inr (has_id-Elem rid xs (ground arith))
]

Elem-has_id : (rid : String) (ids : List String) → Elem rid ids → has_id rid ids ≡ true
unfolding has_id
Elem-has_id rid [] m = absurd m
Elem-has_id rid (x ∷ xs) (inl e) = ground (arith, eq_iff x rid)
Elem-has_id rid (x ∷ xs) (inr m) = ground (arith, Elem-has_id rid xs m)

-- A run under another pipeline
abbrev pub with_pipeline : String → Run → Run
with_pipeline pid r = record r { pipeline_id = pid }

abbrev pointed : String → Option Run → Option Run
pointed pid none = none
pointed pid (some r) = some (with_pipeline pid r)

abbrev repoint_one : String → String → Dict Run → Dict Run
repoint_one pid rid runs = elim (Dict.get runs rid) [
  | none ↦ runs
  | some r ↦ Dict.put runs rid (record r { pipeline_id = pid })
]

get-repoint_found :
    (pid x rid : String) (runs : Dict Run) (r : Run)
    → Dict.get runs x ≡ some r
    → Dict.get (Dict.put runs x (with_pipeline pid r)) rid
      ≡ (if str_eq x rid then pointed pid (Dict.get runs rid) else Dict.get runs rid)
get-repoint_found pid x rid runs r found = elim (str_eq-cases x rid) [
  | inl same ↦
      let here : Dict.get runs rid ≡ some r = ap (Dict.get runs) (sym same) ∙ found in
      ground (arith, get-put runs x rid (with_pipeline pid r), here, (eq_iff x rid).1 same)
  | inr other ↦ ground (arith, get-put runs x rid (with_pipeline pid r), other)
]

get-repoint_missing :
    (pid x rid : String) (runs : Dict Run)
    → Dict.get runs x ≡ none
    → Dict.get runs rid
      ≡ (if str_eq x rid then pointed pid (Dict.get runs rid) else Dict.get runs rid)
get-repoint_missing pid x rid runs missing = elim (str_eq-cases x rid) [
  | inl same ↦
      let here : Dict.get runs rid ≡ none = ap (Dict.get runs) (sym same) ∙ missing in
      ground (arith, here, (eq_iff x rid).1 same)
  | inr other ↦ ground (arith, other)
]

get-repoint_one :
    (pid x rid : String) (runs : Dict Run)
    → Dict.get (repoint_one pid x runs) rid
      ≡ (if str_eq x rid then pointed pid (Dict.get runs rid) else Dict.get runs rid)
get-repoint_one pid x rid runs = elim (Option-cases (Dict.get runs x)) [
  | inl missing ↦ ground (arith, missing, get-repoint_missing pid x rid runs missing)
  | inr (r, found) ↦ ground (arith, found, get-repoint_found pid x rid runs r found)
]

get-repoint :
    (pid : String) (ids : List String) (runs : Dict Run) (rid : String)
    → Dict.get (repoint pid ids runs) rid
      ≡ (if has_id rid ids then pointed pid (Dict.get runs rid) else Dict.get runs rid)
unfolding repoint has_id
get-repoint pid [] runs rid = refl
get-repoint pid (x ∷ xs) runs rid =
    ground (arith, get-repoint pid xs (repoint_one pid x runs) rid, get-repoint_one pid x rid runs)

module _ (s : Store) (indexed : IsIndexed s) (old_id new_id : String)
    (different : str_eq old_id new_id ≡ false) (run_ids : List String)
    (had : Dict.get s.by_pipeline old_id ≡ some run_ids) where
  pub moved : Store
  moved = record s {
    by_pipeline =
        Dict.delete
          (Dict.put s.by_pipeline new_id (ids_of (Dict.get s.by_pipeline new_id) ++ run_ids))
          old_id;
    runs = repoint new_id run_ids s.runs;
  }

  pub migrate-moved : migrate old_id new_id s ≡ moved
  unfolding migrate moved
  migrate-moved = ground (arith, had)

  ids_moved :
      (q : String)
      → ids_of (Dict.get moved.by_pipeline q) ≡ (
          if str_eq old_id q
          then []
          else if str_eq new_id q
          then ids_of (Dict.get s.by_pipeline new_id) ++ run_ids
          else ids_of (Dict.get s.by_pipeline q))
  unfolding moved
  ids_moved q = ground (
    arith,
    get-delete (Dict.put s.by_pipeline new_id (ids_of (Dict.get s.by_pipeline new_id) ++ run_ids))
        old_id q,
    get-put s.by_pipeline new_id q (ids_of (Dict.get s.by_pipeline new_id) ++ run_ids),
  )

  get-moved :
      (rid : String)
      → Dict.get moved.runs rid
        ≡ (if has_id rid run_ids then pointed new_id (Dict.get s.runs rid) else Dict.get s.runs rid)
  unfolding moved
  get-moved rid = get-repoint new_id run_ids s.runs rid

  -- The moved runs are those of the old pipeline.
  moved_old :
      (rid : String)
      → has_id rid run_ids ≡ true
      → (r : Run) → Dict.get s.runs rid ≡ some r
      → r.pipeline_id ≡ old_id
  moved_old rid mem r stored =
      let (r', stored', named) =
        indexed.sound old_id rid
          (subst (λ o. Elem rid (ids_of o)) (sym had) (has_id-Elem rid run_ids mem)) in
      ground (arith, stored, stored', named)

  old_moved :
      (rid : String) (r : Run)
      → Dict.get s.runs rid ≡ some r
      → r.pipeline_id ≡ old_id
      → has_id rid run_ids ≡ true
  old_moved rid r stored named = Elem-has_id rid run_ids (
      subst (λ o. Elem rid (ids_of o)) (ap (Dict.get s.by_pipeline) named ∙ had)
        (indexed.complete rid r stored))

  -- The run under an ID after the migration
  pub moved_run :
      (rid : String) (r : Run)
      → Dict.get s.runs rid ≡ some r
      → Dict.get moved.runs rid
        ≡ some (with_pipeline (if str_eq old_id r.pipeline_id then new_id else r.pipeline_id) r)
  moved_run rid r stored = elim (Bool-cases (has_id rid run_ids)) [
    | inl mem ↦
        ground (
          arith,
          get-moved rid,
          mem,
          stored,
          moved_old rid mem r stored,
          eq_iff old_id r.pipeline_id,
        )
    | inr out ↦ elim (str_eq-cases old_id r.pipeline_id) [
      | inl same ↦ absurd (ground (arith, old_moved rid r stored (sym same), out))
      | inr other ↦ ground (arith, get-moved rid, out, stored, other)
    ]
  ]

  none_left : (q rid : String) → old_id ≡ q → Elem rid (ids_of (Dict.get moved.by_pipeline q)) → ⊥
  none_left q rid same m =
      let gone : ids_of (Dict.get moved.by_pipeline q) ≡ [] =
        ids_moved q ∙ rw ((eq_iff old_id q).1 same) refl in
      absurd (subst (Elem rid) gone m)

  abbrev Names : String → String → Type 0
  Names q rid = (r : Run) × (Dict.get moved.runs rid ≡ some r) × (r.pipeline_id ≡ q)

  Names-new :
      (rid : String) (q : String) (r : Run)
      → Dict.get s.runs rid ≡ some r
      → r.pipeline_id ≡ q
      → (q ≡ old_id) ⊎ (q ≡ new_id)
      → Names new_id rid
  Names-new rid q r stored named which =
      (_, moved_run rid r stored, ground (arith, eq_iff old_id r.pipeline_id, eq_iff old_id new_id))

  sound_moved : (q rid : String) → Elem rid (ids_of (Dict.get moved.by_pipeline q)) → Names q rid
  sound_moved q rid m = elim (str_eq-cases old_id q) [
    | inl same ↦ absurd (none_left q rid same m)
    | inr other ↦ elim (str_eq-cases new_id q) [
      | inl same ↦
          subst (λ x. Names x rid) same
            (elim (Elem-append_cases rid (ids_of (Dict.get s.by_pipeline new_id)) run_ids
              (subst (Elem rid) (ids_moved q ∙ rw (other, (eq_iff new_id q).1 same) refl) m)) [
                | inl first ↦
                    let (r, stored, named) = indexed.sound new_id rid first in
                    Names-new rid new_id r stored named (inr refl)
                | inr second ↦
                    let (r, stored, named) =
                      indexed.sound old_id rid
                        (subst (λ o. Elem rid (ids_of o)) (sym had) second) in
                    Names-new rid old_id r stored named (inl refl)
              ])
      | inr third ↦
          let (r, stored, named) =
            indexed.sound q rid (subst (Elem rid) (ids_moved q ∙ rw (other, third) refl) m) in
          (_, moved_run rid r stored, ground (arith, named, other))
    ]
  ]

  -- Every run after the migration was there before.
  run_before :
      (rid : String) (r' : Run)
      → Dict.get moved.runs rid ≡ some r'
      → (r : Run) × (Dict.get s.runs rid ≡ some r)
  run_before rid r' stored' = elim (Option-cases (Dict.get s.runs rid)) [
    | inl missing ↦ absurd (ground (arith, get-moved rid, missing, stored'))
    | inr found ↦ found
  ]

  in_new_ids :
      (rid : String)
      → Elem rid (ids_of (Dict.get s.by_pipeline new_id)) ⊎ Elem rid run_ids
      → Elem rid (ids_of (Dict.get moved.by_pipeline new_id))
  in_new_ids rid which =
      subst (Elem rid) (sym (ids_moved new_id ∙ rw (different, eq_refl new_id) refl)) (elim which [
        | inl first ↦ Elem-append_left rid (ids_of (Dict.get s.by_pipeline new_id)) run_ids first
        | inr second ↦ Elem-append_right rid (ids_of (Dict.get s.by_pipeline new_id)) run_ids second
      ])

  complete_at :
      (rid : String) (r : Run)
      → Dict.get s.runs rid ≡ some r
      → Elem rid (
          ids_of (
            Dict.get moved.by_pipeline
              (if str_eq old_id r.pipeline_id then new_id else r.pipeline_id)))
  complete_at rid r stored = elim (str_eq-cases old_id r.pipeline_id) [
    | inl same ↦
        rw ((eq_iff old_id r.pipeline_id).1 same)
          (in_new_ids rid (inr (has_id-Elem rid run_ids (old_moved rid r stored (sym same)))))
    | inr other ↦ rw other (elim (str_eq-cases new_id r.pipeline_id) [
      | inl same ↦
          subst (λ x. Elem rid (ids_of (Dict.get moved.by_pipeline x))) same
            (in_new_ids rid (
              inl (
                subst (λ x. Elem rid (ids_of (Dict.get s.by_pipeline x))) (sym same)
                  (indexed.complete rid r stored))))
      | inr third ↦
          subst (Elem rid) (sym (ids_moved r.pipeline_id ∙ rw (other, third) refl))
            (indexed.complete rid r stored)
    ])
  ]

  complete_moved :
      (rid : String) (r' : Run)
      → Dict.get moved.runs rid ≡ some r'
      → Elem rid (ids_of (Dict.get moved.by_pipeline r'.pipeline_id))
  complete_moved rid r' stored' =
      let (r, stored) = run_before rid r' stored' in
      subst (λ x. Elem rid (ids_of (Dict.get moved.by_pipeline x)))
        (ground (arith, moved_run rid r stored, stored')) (complete_at rid r stored)

  pub moved-IsIndexed : IsIndexed moved
  moved-IsIndexed = record { sound = sound_moved; complete = complete_moved }
