-- ===== src/Server/Loading/Results.antt =====
-- cmd/server/pipelines.go: the start and a reload read the same pipelines, and what a loaded
-- pipeline looks like.
use mathlib.Core.Path.{subst}
use lp.Base.Dict
use lp.Base.Dict.{get-put}
use lp.Base.{
  ℕ, ◌<◌, String, List, [], ◌∷◌, ◌++◌, ◌≡◌, refl, sym, some, str_eq-cases, eq_iff, ◌∙◌, ap, inl,
  inr, Bool-cases, All, All-append, arith, length, length-append, is_empty, false,
}
use lp.Pipeline.Definition.{PipelineDef, new_pipeline_def}
use lp.Pipeline.Store.{Store, Fallible, ok, err, add_pipeline, replace_pipelines, new_store}
use lp.Server.Loading.{
  is_pipeline_file, add_loaded, add_reloaded, open_directory, load_directory, reload_directory,
  Files, DirEntry, Loaded, Reloaded, load_pipeline_file, load_entry, load_entries, load_directories,
  load_pipelines, reload_entry, reload_entries, reload_directories, reload_pipelines,
}

-- The pipelines registered one after the other
pub add_pipelines : List PipelineDef → Store → Store
add_pipelines [] s = s
add_pipelines (p ∷ ps) s = add_pipelines ps (add_pipeline p s)

add_pipelines-append :
    (ps : List PipelineDef) (p : PipelineDef) (s : Store)
    → add_pipelines (ps ++ p ∷ []) s ≡ add_pipeline p (add_pipelines ps s)
unfolding add_pipelines
add_pipelines-append [] p s = refl
add_pipelines-append (q ∷ ps) p s = add_pipelines-append ps p (add_pipeline q s)

-- The variables of the start, from those of a reload.
abbrev registered : Store → Reloaded → Loaded
registered s r = record {
  store = add_pipelines r.loaded s;
  loaded = length r.loaded;
  errs = r.errs;
  next = r.next;
}

add_loaded_lem :
    (s : Store) (path : String) (o : Fallible PipelineDef) (r : Reloaded)
    → add_loaded path o (registered s r) ≡ registered s (add_reloaded path o r)
unfolding add_loaded add_reloaded
add_loaded_lem s path (err e) r = refl
add_loaded_lem s path (ok p) r =
    ground (arith, add_pipelines-append r.loaded p s, length-append r.loaded (p ∷ []))

module _ (fs : Files) (s : Store) where
  load_entry_lem :
      (dir : String) (e : DirEntry) (r : Reloaded)
      → load_entry fs dir e (registered s r) ≡ registered s (reload_entry fs dir e r)
  unfolding load_entry reload_entry add_pipelines
  load_entry_lem dir e r = elim (Bool-cases (is_pipeline_file e)) [
    | inl file ↦
        rw (file, load_entry, reload_entry)
          (add_loaded_lem s (fs.join dir e.name) (load_pipeline_file fs r.next (fs.join dir e.name))
            r)
    | inr other ↦ rw (other, load_entry, reload_entry) refl
  ]

  load_entries_lem :
      (dir : String) (es : List DirEntry) (r : Reloaded)
      → load_entries fs dir es (registered s r) ≡ registered s (reload_entries fs dir es r)
  unfolding load_entries reload_entries
  load_entries_lem dir [] r = refl
  load_entries_lem dir (e ∷ es) r =
      ap (load_entries fs dir es) (load_entry_lem dir e r)
      ∙ load_entries_lem dir es (reload_entry fs dir e r)

  load_directory_lem :
      (dir : String) (o : Fallible (List DirEntry)) (r : Reloaded)
      → load_directory fs dir o (registered s r) ≡ registered s (reload_directory fs dir o r)
  unfolding load_directory reload_directory
  load_directory_lem dir (err e) r = refl
  load_directory_lem dir (ok entries) r = load_entries_lem dir entries r

  load_directories_lem :
      (dirs : List String) (r : Reloaded)
      → load_directories fs dirs (registered s r) ≡ registered s (reload_directories fs dirs r)
  unfolding load_directories reload_directories
  load_directories_lem [] r = refl
  load_directories_lem (dir ∷ dirs) r =
      ap (load_directories fs dirs) (load_directory_lem dir (open_directory fs dir) r)
      ∙ load_directories_lem dirs (reload_directory fs dir (open_directory fs dir) r)

  -- On the same files, LoadPipelinesFromDirectories registers one after the other the very
  -- pipelines, under the same IDs, that ReloadPipelinesFromDirectories hands to ReplacePipelines,
  -- and both return the same number of pipelines and the same errors, in the same order.
  pub load-reload :
      (order : List (String × PipelineDef)) (dirs : List String) (next : ℕ)
      → let r = reload_directories fs dirs (record { loaded = []; errs = []; next = next }) in
        ((load_pipelines fs dirs s next).store ≡ add_pipelines r.loaded s)
        × ((load_pipelines fs dirs s next).loaded ≡ (reload_pipelines fs order dirs s next).1)
        × ((load_pipelines fs dirs s next).errs ≡ (reload_pipelines fs order dirs s next).2)
        × ((reload_pipelines fs order dirs s next).0 ≡ replace_pipelines order r.loaded s)
  unfolding load_pipelines reload_pipelines add_pipelines
  load-reload order dirs next =
      let e = load_directories_lem dirs (record { loaded = []; errs = []; next = next }) in
      (
        ap (λ (l : Loaded). l.store) e,
        ap (λ (l : Loaded). l.loaded) e,
        ap (λ (l : Loaded). l.errs) e,
        refl,
      )

-- What the guards of loadPipelineFile leave.
abbrev pub IsRunnable : PipelineDef → Type 0
IsRunnable p = (is_empty p.name ≡ false) × (0 < length p.steps) × (p.emit ≡ [])

load_pipeline_file-IsRunnable :
    (fs : Files) (n : ℕ) (path : String) (p : PipelineDef)
    → load_pipeline_file fs n path ≡ ok p
    → IsRunnable p
unfolding load_pipeline_file new_pipeline_def
load_pipeline_file-IsRunnable fs n path p h = ground arith

add_reloaded-IsRunnable :
    (path : String) (o : Fallible PipelineDef) (r : Reloaded)
    → ((p : PipelineDef) → o ≡ ok p → IsRunnable p)
    → All IsRunnable r.loaded
    → All IsRunnable (add_reloaded path o r).loaded
unfolding add_reloaded
add_reloaded-IsRunnable path (err e) r h a = a
add_reloaded-IsRunnable path (ok p) r h a = All-append IsRunnable r.loaded _ a (h p refl, tt)

module _ (fs : Files) where
  reload_entry-IsRunnable :
      (dir : String) (e : DirEntry) (r : Reloaded)
      → All IsRunnable r.loaded
      → All IsRunnable (reload_entry fs dir e r).loaded
  unfolding reload_entry
  reload_entry-IsRunnable dir e r a = elim (Bool-cases (is_pipeline_file e)) [
    | inl file ↦
        rw (file, reload_entry)
          (add_reloaded-IsRunnable _ _ r
            (load_pipeline_file-IsRunnable fs r.next (fs.join dir e.name)) a)
    | inr other ↦ rw (other, reload_entry) a
  ]

  reload_directory-IsRunnable :
      (dir : String) (o : Fallible (List DirEntry)) (r : Reloaded)
      → All IsRunnable r.loaded
      → All IsRunnable (reload_directory fs dir o r).loaded
  unfolding reload_directory reload_entries
  reload_directory-IsRunnable dir (err e) r a = a
  reload_directory-IsRunnable dir (ok []) r a = a
  reload_directory-IsRunnable dir (ok (e ∷ es)) r a =
      reload_directory-IsRunnable dir (ok es) _ (reload_entry-IsRunnable dir e r a)

  reload_directories-IsRunnable :
      (dirs : List String) (r : Reloaded)
      → All IsRunnable r.loaded
      → All IsRunnable (reload_directories fs dirs r).loaded
  unfolding reload_directories
  reload_directories-IsRunnable [] r a = a
  reload_directories-IsRunnable (dir ∷ dirs) r a =
      reload_directories-IsRunnable dirs _
        (reload_directory-IsRunnable dir (open_directory fs dir) r a)

-- All pipelines of a store have what the guards leave.
abbrev pub HoldsRunnable : Store → Type 0
HoldsRunnable s = (id : String) (p : PipelineDef) → Dict.get s.pipelines id ≡ some p → IsRunnable p

add_pipeline-HoldsRunnable :
    (p : PipelineDef) (s : Store)
    → IsRunnable p
    → HoldsRunnable s
    → HoldsRunnable (add_pipeline p s)
unfolding add_pipeline
add_pipeline-HoldsRunnable p s good old id q h = elim (str_eq-cases p.id id) [
  | inl same ↦
      let e : p ≡ q = ground (arith, h, get-put s.pipelines p.id id p, (eq_iff p.id id).1 same) in
      subst IsRunnable e good
  | inr other ↦ old id q (ground (arith, h, get-put s.pipelines p.id id p, other))
]

add_pipelines-HoldsRunnable :
    (ps : List PipelineDef) (s : Store)
    → All IsRunnable ps
    → HoldsRunnable s
    → HoldsRunnable (add_pipelines ps s)
unfolding add_pipelines
add_pipelines-HoldsRunnable [] s good old = old
add_pipelines-HoldsRunnable (p ∷ ps) s (good, rest) old =
    add_pipelines-HoldsRunnable ps (add_pipeline p s) rest (add_pipeline-HoldsRunnable p s good old)

new_store-HoldsRunnable : HoldsRunnable new_store
unfolding new_store Dict.get Dict.empty
new_store-HoldsRunnable id p h = cc

-- Every pipeline that a start has read from files into the store, and every one that a reload has read
-- and hands to ReplacePipelines, has a name that is not empty and at least one step, and declares no
-- event of its own, whatever its file says.
pub loaded-IsRunnable :
    (fs : Files) (dirs : List String) (next : ℕ) (order : List (String × PipelineDef)) (s : Store)
    → let r = reload_directories fs dirs (record { loaded = []; errs = []; next = next }) in
      HoldsRunnable (load_pipelines fs dirs new_store next).store
      × All IsRunnable r.loaded
      × ((reload_pipelines fs order dirs s next).0 ≡ replace_pipelines order r.loaded s)
loaded-IsRunnable fs dirs next order s =
    let r = reload_directories fs dirs (record { loaded = []; errs = []; next = next }) in
    let good =
      reload_directories-IsRunnable fs dirs (record { loaded = []; errs = []; next = next }) tt in
    (
      subst HoldsRunnable (sym (load-reload fs new_store order dirs next).0)
          (add_pipelines-HoldsRunnable r.loaded new_store good new_store-HoldsRunnable),
      good,
      (load-reload fs s order dirs next).3,
    )
