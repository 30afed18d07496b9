-- ===== src/Server/Loading/Tests.antt =====
-- The theorems about loading at a directory with a good file, a file with no steps and a text file.
use lp.Base.{String, List, [], ◌∷◌, ◌≡◌, refl, All, true, false, str_eq, if◌then◌else◌}
use lp.Errors.{file_error, no_steps, directory_error, external}
use lp.Pipeline.Definition.{StepDef, new_pipeline_def}
use lp.Pipeline.Store.{ok, err, new_store, replace_pipelines}
use lp.Server.Loading.{
  Files, load_pipelines, reload_pipelines, reload_directories, reload_directory, reload_entries,
  reload_entry, add_reloaded, open_directory, load_pipeline_file, is_pipeline_file,
}
use lp.Server.Loading.Results.{
  add_pipelines, IsRunnable, HoldsRunnable, load-reload, loaded-IsRunnable,
}

abbrev one_step : StepDef
one_step = record { name = "compile"; command = "make"; args = []; dir = ""; env = []; emit = [] }

-- A file's content is its path; "build.yaml" and "empty.YML" decode, the latter to no steps.
abbrev files : Files
files = record {
  stat = λ dir. if str_eq dir "pipelines" then ok true else err (external "no such directory");
  read_dir = λ dir. ok (
      record { name = "build.yaml"; is_dir = false }
      ∷ record { name = "empty.YML"; is_dir = false }
      ∷ record { name = "notes.txt"; is_dir = false }
      ∷ []);
  read_file = λ path. ok path;
  decode = λ content.
      if str_eq content "build.yaml"
      then ok (record { name = "build"; steps = one_step ∷ [] })
      else ok (record { name = "empty"; steps = [] });
  join = λ dir name. name;
  fresh_id = λ n. "id";
}

abbrev dirs : List String
dirs = "pipelines" ∷ "missing" ∷ []

load-reload_example :
    ((load_pipelines files dirs new_store 0).store
      ≡ add_pipelines
          (reload_directories files dirs (record { loaded = []; errs = []; next = 0 })).loaded
          new_store)
    × ((load_pipelines files dirs new_store 0).loaded
        ≡ (reload_pipelines files [] dirs new_store 0).1)
    × ((load_pipelines files dirs new_store 0).errs
        ≡ (reload_pipelines files [] dirs new_store 0).2)
    × ((reload_pipelines files [] dirs new_store 0).0
        ≡ replace_pipelines []
            (reload_directories files dirs (record { loaded = []; errs = []; next = 0 })).loaded
            new_store)
load-reload_example = load-reload files new_store [] dirs 0

loaded-IsRunnable_example :
    HoldsRunnable (load_pipelines files dirs new_store 0).store
    × All IsRunnable
        (reload_directories files dirs (record { loaded = []; errs = []; next = 0 })).loaded
    × ((reload_pipelines files [] dirs new_store 0).0
        ≡ replace_pipelines []
            (reload_directories files dirs (record { loaded = []; errs = []; next = 0 })).loaded
            new_store)
loaded-IsRunnable_example = loaded-IsRunnable files dirs 0 [] new_store

-- One pipeline is loaded, and two errors are reported.
loaded_build :
    reload_directories files dirs (record { loaded = []; errs = []; next = 0 }) ≡ record {
      loaded = new_pipeline_def "id" "build" (one_step ∷ []) ∷ [];
      errs =
          file_error "empty.YML" (no_steps "empty")
          ∷ directory_error "missing" (external "no such directory")
          ∷ [];
      next = 1;
    }
unfolding reload_directories reload_directory reload_entries reload_entry add_reloaded
    open_directory load_pipeline_file is_pipeline_file
loaded_build = refl
