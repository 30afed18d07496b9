-- ===== src/Server/Loading.antt =====
-- cmd/server/pipelines.go: pipelines are read from the YAML files of directories, at the start and
-- again for a hot reload. The file system and the YAML decoder are parameters.
mod Results
mod Tests
use lp.Base.{
  ℕ, suc, ◌+◌, String, Bool, false, List, [], ◌∷◌, ◌++◌, ◌||◌, length, is_empty, ext, lower_eq,
  if◌then◌else◌,
}
use lp.Errors.{
  GoError, directory_error, not_a_directory, file_error, reading_file, parsing_yaml, missing_name,
  no_steps,
}
use lp.Pipeline.Definition.{PipelineDef, StepDef, new_pipeline_def}
use lp.Pipeline.Store.{Store, Fallible, ok, err, add_pipeline, replace_pipelines}

-- An entry that os.ReadDir lists
pub record DirEntry : Type 0 where
  pub name : String
  pub is_dir : Bool

-- What the decoder fills in: `def` of loadPipelineFile
pub record Decoded : Type 0 where
  pub name : String
  pub steps : List StepDef

-- The file system, the decoder, and the IDs that newID returns, one after the other.
pub record Files : Type 0 where
  -- os.Stat(dir), and IsDir of its answer
  pub stat : String → Fallible Bool
  -- os.ReadDir
  pub read_dir : String → Fallible (List DirEntry)
  -- os.ReadFile
  pub read_file : String → Fallible String
  -- yaml.Unmarshal
  pub decode : String → Fallible Decoded
  -- filepath.Join
  pub join : String → String → String
  pub fresh_id : ℕ → String

-- loadPipelineFile, where newID returns the ID under the number `n`
unfoldable pub load_pipeline_file : Files → ℕ → String → Fallible PipelineDef
unfolding is_empty
load_pipeline_file fs n path = elim (fs.read_file path) [
  | err e ↦ err (reading_file e)
  | ok content ↦ elim (fs.decode content) [
    | err e ↦ err (parsing_yaml e)
    | ok def ↦ if is_empty def.name then err missing_name else elim def.steps [
      | [] ↦ err (no_steps def.name)
      | s ∷ steps ↦ ok (new_pipeline_def (fs.fresh_id n) def.name def.steps)
    ]
  ]
]

-- The guards of the loop over entries: a directory or another extension is passed over.
unfoldable pub is_pipeline_file : DirEntry → Bool
unfolding ext lower_eq
is_pipeline_file e =
    if e.is_dir then false else lower_eq (ext e.name) ".yaml" || lower_eq (ext e.name) ".yml"

-- The variables of LoadPipelinesFromDirectories; `next` counts the calls of newID.
pub record Loaded : Type 0 where
  pub store : Store
  pub loaded : ℕ
  pub errs : List GoError
  pub next : ℕ

-- The variables of ReloadPipelinesFromDirectories
pub record Reloaded : Type 0 where
  pub loaded : List PipelineDef
  pub errs : List GoError
  pub next : ℕ

-- What the loops do with the result for one file
unfoldable pub add_loaded : String → Fallible PipelineDef → Loaded → Loaded
add_loaded path (err e) l = record l { errs = l.errs ++ file_error path e ∷ [] }
add_loaded path (ok p) l = record l {
  store = add_pipeline p l.store;
  loaded = l.loaded + 1;
  next = suc l.next;
}

unfoldable pub add_reloaded : String → Fallible PipelineDef → Reloaded → Reloaded
add_reloaded path (err e) l = record l { errs = l.errs ++ file_error path e ∷ [] }
add_reloaded path (ok p) l = record l { loaded = l.loaded ++ p ∷ []; next = suc l.next }

module _ (fs : Files) where
  -- The entries of a directory that passes the three checks, or the error.
  unfoldable pub open_directory : String → Fallible (List DirEntry)
  open_directory dir = elim (fs.stat dir) [
    | err e ↦ err (directory_error dir e)
    | ok is_dir ↦
        if is_dir
        then elim (fs.read_dir dir) [
          | err e ↦ err (directory_error dir e)
          | ok entries ↦ ok entries
        ]
        else err (directory_error dir not_a_directory)
  ]

  -- One entry, in the loop of LoadPipelinesFromDirectories
  unfoldable pub load_entry : String → DirEntry → Loaded → Loaded
  load_entry dir e l =
      let path : String = fs.join dir e.name in
      if is_pipeline_file e then add_loaded path (load_pipeline_file fs l.next path) l else l

  unfoldable pub load_entries : String → List DirEntry → Loaded → Loaded
  load_entries dir [] l = l
  load_entries dir (e ∷ es) l = load_entries dir es (load_entry dir e l)

  -- One directory, in that loop
  unfoldable pub load_directory : String → Fallible (List DirEntry) → Loaded → Loaded
  load_directory dir (err e) l = record l { errs = l.errs ++ e ∷ [] }
  load_directory dir (ok entries) l = load_entries dir entries l

  unfoldable pub load_directories : List String → Loaded → Loaded
  load_directories [] l = l
  load_directories (dir ∷ dirs) l =
      load_directories dirs (load_directory dir (open_directory dir) l)

  -- LoadPipelinesFromDirectories, with the number of the next ID
  unfoldable pub load_pipelines : List String → Store → ℕ → Loaded
  load_pipelines dirs store next =
      load_directories dirs (record { store = store; loaded = 0; errs = []; next = next })

  -- One entry, in the loop of ReloadPipelinesFromDirectories
  unfoldable pub reload_entry : String → DirEntry → Reloaded → Reloaded
  reload_entry dir e l =
      let path : String = fs.join dir e.name in
      if is_pipeline_file e then add_reloaded path (load_pipeline_file fs l.next path) l else l

  unfoldable pub reload_entries : String → List DirEntry → Reloaded → Reloaded
  reload_entries dir [] l = l
  reload_entries dir (e ∷ es) l = reload_entries dir es (reload_entry dir e l)

  -- One directory, in that loop
  unfoldable pub reload_directory : String → Fallible (List DirEntry) → Reloaded → Reloaded
  reload_directory dir (err e) l = record l { errs = l.errs ++ e ∷ [] }
  reload_directory dir (ok entries) l = reload_entries dir entries l

  unfoldable pub reload_directories : List String → Reloaded → Reloaded
  reload_directories [] l = l
  reload_directories (dir ∷ dirs) l =
      reload_directories dirs (reload_directory dir (open_directory dir) l)

  -- ReloadPipelinesFromDirectories: the new store, the number loaded and the errors. `order` is
  -- the order in which ReplacePipelines visits the old pipelines.
  unfoldable pub reload_pipelines :
      List (String × PipelineDef) → List String → Store → ℕ → Store × ℕ × List GoError
  reload_pipelines order dirs store next =
      let l : Reloaded = reload_directories dirs (record { loaded = []; errs = []; next = next }) in
      (replace_pipelines order l.loaded store, length l.loaded, l.errs)
