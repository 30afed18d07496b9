-- ===== src/Pipeline/Store/History.antt =====
-- internal/pipeline/store.go, ReplacePipelines: a pipeline keeps its run history over a reload.
use mathlib.Core.Path.{subst}
use lp.Base.{
  String, false, List, [], ◌∷◌, Option, none, some, ◌≡◌, ◌≢◌, refl, sym, ◌∙◌, ap, inl, inr, ◌⊎◌,
  All, Elem, str_eq-cases, str_eq, eq_iff, eq_refl, arith,
}
use lp.Base.Dict
use lp.Base.Dict.{Dict, IsOrder, get-put, get-empty}
use lp.Pipeline.Definition.{PipelineDef}
use lp.Pipeline.Run.{Run}
use lp.Pipeline.Store.{Store, ids_of, old_by_name, replace_pipelines}
use lp.Pipeline.Store.Runs.{IsIndexed}
use lp.Pipeline.Store.Migrate.{with_pipeline}
use lp.Pipeline.Store.Replace.{
  moved_by, moved_to, pipelines_by_id, migrate_all_lem, migrate_all_run,
}

-- No two pipelines of the list have one name.
abbrev pub HaveNames : List PipelineDef → Type 0
HaveNames [] = Unit {0}
HaveNames (p ∷ ps) = All (λ (q : PipelineDef). str_eq p.name q.name ≡ false) ps × HaveNames ps

-- Every pipeline is stored under its own ID, and no two under one name.
pub record IsNamed (s : Store) : Type 0 where
  pub keyed : (k : String) (p : PipelineDef) → Dict.get s.pipelines k ≡ some p → p.id ≡ k
  pub distinct :
      (k j : String) (p q : PipelineDef)
      → Dict.get s.pipelines k ≡ some p
      → Dict.get s.pipelines j ≡ some q
      → p.name ≡ q.name
      → k ≡ j

All-Elem : {A : Type 0} (P : A → Type 0) (a : A) (xs : List A) → All P xs → Elem a xs → P a
All-Elem P a [] h m = absurd m
All-Elem P a (x ∷ xs) (h, hs) (inl e) = subst P (sym e) h
All-Elem P a (x ∷ xs) (h, hs) (inr m) = All-Elem P a xs hs m

moved_by-fixed :
    (named : Option String) (p : PipelineDef) (pid : String)
    → named ≢ some pid
    → moved_by named p pid ≡ pid
moved_by-fixed none p pid g = refl
moved_by-fixed (some o) p pid g = elim (str_eq-cases o pid) [
  | inl same ↦ absurd (g (ap some same))
  | inr other ↦ ground (arith, other)
]

moved_to-fixed :
    (names : Dict String) (ps : List PipelineDef) (pid : String)
    → ((name : String) → Dict.get names name ≢ some pid)
    → moved_to names ps pid ≡ pid
unfolding moved_to
moved_to-fixed names [] pid h = refl
moved_to-fixed names (p ∷ ps) pid h =
    ap (moved_to names ps) (moved_by-fixed (Dict.get names p.name) p pid (h p.name))
    ∙ moved_to-fixed names ps pid h

module _ (names : Dict String) (old_id : String) (p : PipelineDef)
    (named : Dict.get names p.name ≡ some old_id)
    (only : (name : String) → Dict.get names name ≡ some old_id → name ≡ p.name)
    (fresh : (name : String) → Dict.get names name ≢ some p.id) where
  moved_to-new :
      (ps : List PipelineDef) → HaveNames ps → Elem p ps → moved_to names ps old_id ≡ p.id
  unfolding moved_to
  moved_to-new [] h m = absurd m
  moved_to-new (q ∷ ps) h (inl same) =
      let here : moved_by (Dict.get names q.name) q old_id ≡ p.id = ground (
        arith,
        named,
        same,
        ap (λ (x : PipelineDef). Dict.get names x.name) same,
        eq_refl old_id,
      ) in
      ap (moved_to names ps) here ∙ moved_to-fixed names ps p.id fresh
  moved_to-new (q ∷ ps) (others, h) (inr m) =
      let other : str_eq q.name p.name ≡ false =
        All-Elem (λ (x : PipelineDef). str_eq q.name x.name ≡ false) p ps others m in
      let differs : Dict.get names q.name ≢ some old_id =
        λ same. ground (arith, eq_iff q.name p.name, only q.name same, other) in
      ap (moved_to names ps) (moved_by-fixed (Dict.get names q.name) q old_id differs)
      ∙ moved_to-new ps h m

-- What oldByName holds
abbrev Listed : String → List (String × PipelineDef) → String → Type 0
Listed name order o =
    (k : String) × (q : PipelineDef) × Elem (k, q) order × (q.name ≡ name) × (q.id ≡ o)

old_by_name_sound :
    (order : List (String × PipelineDef)) (d : Dict String) (name o : String)
    → Dict.get (old_by_name order d) name ≡ some o
    → (Dict.get d name ≡ some o) ⊎ Listed name order o
unfolding old_by_name
old_by_name_sound [] d name o h = inl h
old_by_name_sound ((k, q) ∷ rest) d name o h =
    elim (old_by_name_sound rest (Dict.put d q.name q.id) name o h) [
      | inr (k', q', m, named, id) ↦ inr (k', q', inr m, named, id)
      | inl before ↦ elim (str_eq-cases q.name name) [
        | inl same ↦ inr (
          k,
          q,
          inl refl,
          same,
          ground (arith, get-put d q.name name q.id, before, (eq_iff q.name name).1 same),
        )
        | inr other ↦ inl (ground (arith, get-put d q.name name q.id, before, other))
      ]
    ]

old_by_name_keeps :
    (order : List (String × PipelineDef)) (d : Dict String) (name o : String)
    → Dict.get d name ≡ some o
    → (o' : String) × (Dict.get (old_by_name order d) name ≡ some o')
unfolding old_by_name
old_by_name_keeps [] d name o h = (o, h)
old_by_name_keeps ((k, q) ∷ rest) d name o h = elim (str_eq-cases q.name name) [
  | inl same ↦
      old_by_name_keeps rest (Dict.put d q.name q.id) name q.id
        (get-put d q.name name q.id ∙ rw ((eq_iff q.name name).1 same) refl)
  | inr other ↦
      old_by_name_keeps rest (Dict.put d q.name q.id) name o
        (get-put d q.name name q.id ∙ rw other h)
]

old_by_name_complete :
    (order : List (String × PipelineDef)) (d : Dict String) (k : String) (p : PipelineDef)
    → Elem (k, p) order
    → (o : String) × (Dict.get (old_by_name order d) p.name ≡ some o)
unfolding old_by_name
old_by_name_complete [] d k p m = absurd m
old_by_name_complete ((j, q) ∷ rest) d k p (inl e) =
    old_by_name_keeps rest (Dict.put d q.name q.id) p.name q.id (
      get-put d q.name p.name q.id
      ∙ rw ((eq_iff q.name p.name).1 (ap (λ (x : String × PipelineDef). x.1.name) (sym e))) refl)
old_by_name_complete ((j, q) ∷ rest) d k p (inr m) =
    old_by_name_complete rest (Dict.put d q.name q.id) k p m

module _ (s : Store) (order : List (String × PipelineDef)) (named : IsNamed s)
    (is_order : IsOrder order s.pipelines) where
  -- oldByName has the ID of the stored pipeline of a name, and no other.
  old_stored :
      (name o : String)
      → Dict.get (old_by_name order Dict.empty) name ≡ some o
      → (q : PipelineDef) × (Dict.get s.pipelines o ≡ some q) × (q.name ≡ name)
  old_stored name o h = elim (old_by_name_sound order Dict.empty name o h) [
    | inl nothing ↦ absurd (ground (arith, get-empty {V = String} name, nothing))
    | inr (k, q, m, same, id) ↦
        let stored = is_order.sound k q m in
        let key : k ≡ o = sym (named.keyed k q stored) ∙ id in
        (q, ap (Dict.get s.pipelines) (sym key) ∙ stored, same)
  ]

  old_found :
      (k : String) (q : PipelineDef)
      → Dict.get s.pipelines k ≡ some q
      → Dict.get (old_by_name order Dict.empty) q.name ≡ some k
  old_found k q stored =
      let (o, found) = old_by_name_complete order Dict.empty k q (is_order.complete k q stored) in
      let (q', stored', same) = old_stored q.name o found in
      found ∙ ap some (sym (named.distinct k o q q' stored stored' (sym same)))

  -- On a store whose index is right, and whose pipelines have their own IDs and names: when a pipeline
  -- `q` is replaced by one of the same name `p`, under an ID that no stored pipeline has, and the new
  -- pipelines have their own names, ReplacePipelines keeps each run of `q`, with all it holds, as a
  -- run of `p`, which RunsFor finds under the new ID. The index stays right, and the new pipelines
  -- are what the store holds.
  pub replace_pipelines-keeps :
      (new_pipelines : List PipelineDef) (old_id : String) (p q : PipelineDef) (rid : String)
      (r : Run)
      → IsIndexed s
      → HaveNames new_pipelines
      → Elem p new_pipelines
      → Dict.get s.pipelines p.id ≡ none
      → Dict.get s.pipelines old_id ≡ some q
      → q.name ≡ p.name
      → Dict.get s.runs rid ≡ some r
      → r.pipeline_id ≡ old_id
      → let after = replace_pipelines order new_pipelines s in
        (Dict.get after.runs rid ≡ some (with_pipeline p.id r))
        × Elem rid (ids_of (Dict.get after.by_pipeline p.id))
        × IsIndexed after
        × (after.pipelines ≡ pipelines_by_id new_pipelines Dict.empty)
  unfolding replace_pipelines
  replace_pipelines-keeps new_pipelines old_id p q rid r indexed have member fresh stored same
        run_stored of_old =
      let names : Dict String = old_by_name order Dict.empty in
      let found : Dict.get names p.name ≡ some old_id =
        ap (Dict.get names) (sym same) ∙ old_found old_id q stored in
      let only : (name : String) → Dict.get names name ≡ some old_id → name ≡ p.name = λ name h.
        let (q', stored', same') = old_stored name old_id h in
        ground (arith, stored, stored', same', same) in
      let unused : (name : String) → Dict.get names name ≢ some p.id = λ name h.
        let (q', stored', same') = old_stored name p.id h in ground (arith, stored', fresh) in
      let goes =
        ap (moved_to names new_pipelines) of_old
        ∙ moved_to-new names old_id p found only unused new_pipelines have member in
      let moved =
        migrate_all_run names new_pipelines Dict.empty s rid r indexed run_stored
        ∙ ap (λ pid. some (with_pipeline pid r)) goes in
      let (index, pipelines) = migrate_all_lem names new_pipelines Dict.empty s indexed in
      (moved, index.complete rid (with_pipeline p.id r) moved, index, pipelines)
