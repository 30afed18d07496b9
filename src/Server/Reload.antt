-- ===== src/Server/Reload.antt =====
-- cmd/server/server.go, watchPipelineDirectories: the directories are polled, and the pipelines are
-- read again when a file was added, removed or changed. Times are numbers.
mod Report
mod Changes
mod Tests
use lp.Base.{
  ℕ, String, Bool, true, false, List, [], ◌∷◌, Option, none, some, ◌==◌, not, length, if◌then◌else◌,
}
use lp.Base.Dict.{Dict}
use lp.Base.Dict
use lp.Errors.{GoError}
use lp.Logging.{number, failure, cat_config}
use lp.Logging
use lp.Pipeline.Definition.{PipelineDef}
use lp.Pipeline.Store.{Fallible, ok, err, Store}
use lp.Server.State.{Server, WsEvent, prefix_info, prefix_ok, prefix_fail, print, note}
use lp.Server.Wiring.{no_event, broadcast}
use lp.Server.Loading.{
  Files, DirEntry, is_pipeline_file, Reloaded, reload_directories, reload_pipelines,
}

-- The file system at one tick: its files, and the modification time that Info() tells of an entry,
-- none for an error.
pub record Polled : Type 0 where
  pub files : Files
  pub mod_time : String → String → Option ℕ

module _ (fs : Polled) where
  -- What snapshotPipelineFiles does with an entry that passed its guards
  unfoldable pub add_time : String → String → Option ℕ → Dict ℕ → Dict ℕ
  add_time dir name none snapshot = snapshot
  add_time dir name (some time) snapshot = Dict.put snapshot (fs.files.join dir name) time

  -- One entry, in the loop over the entries
  unfoldable pub snapshot_entry : String → DirEntry → Dict ℕ → Dict ℕ
  unfolding add_time
  snapshot_entry dir e snapshot =
      if is_pipeline_file e then add_time dir e.name (fs.mod_time dir e.name) snapshot else snapshot

  unfoldable pub snapshot_entries : String → List DirEntry → Dict ℕ → Dict ℕ
  unfolding snapshot_entry
  snapshot_entries dir [] snapshot = snapshot
  snapshot_entries dir (e ∷ es) snapshot = snapshot_entries dir es (snapshot_entry dir e snapshot)

  -- One directory: an error of os.ReadDir passes it over.
  unfoldable pub snapshot_directory : String → Fallible (List DirEntry) → Dict ℕ → Dict ℕ
  unfolding snapshot_entries
  snapshot_directory dir (err e) snapshot = snapshot
  snapshot_directory dir (ok entries) snapshot = snapshot_entries dir entries snapshot

  unfoldable pub snapshot_directories : List String → Dict ℕ → Dict ℕ
  unfolding snapshot_directory
  snapshot_directories [] snapshot = snapshot
  snapshot_directories (dir ∷ dirs) snapshot =
      snapshot_directories dirs (snapshot_directory dir (fs.files.read_dir dir) snapshot)

  -- snapshotPipelineFiles
  unfoldable pub snapshot_pipeline_files : List String → Dict ℕ
  unfolding snapshot_directories
  snapshot_pipeline_files dirs = snapshot_directories dirs Dict.empty

-- !ok || !prev.Equal(modTime)
abbrev pub differs : Option ℕ → ℕ → Bool
differs none time = true
differs (some prev) time = not (prev == time)

-- The loop of pipelineFilesChanged
unfoldable pub any_differs : Dict ℕ → List (String × ℕ) → Bool
any_differs old [] = false
any_differs old ((path, time) ∷ rest) =
    let later = any_differs old rest in if differs (Dict.get old path) time then true else later

-- pipelineFilesChanged; `order` is the order in which it visits the entries of `current`.
unfoldable pub pipeline_files_changed : List (String × ℕ) → Dict ℕ → Dict ℕ → Bool
unfolding any_differs
pipeline_files_changed order old current =
    if not (Dict.size old == Dict.size current) then true else any_differs old order

-- The loop over the errors of a reload
unfoldable pub report_errors : ℕ → List GoError → Server → Server
report_errors now [] s = s
report_errors now (e ∷ es) s = report_errors now es (
    note (Logging.error now cat_config "server" "pipeline reload error" (("error", failure e) ∷ []))
      (print prefix_fail "pipeline reload: %v" (failure e ∷ []) s))

-- What follows ReloadPipelinesFromDirectories
unfoldable pub report_reload : ℕ → ℕ → List GoError → Server → Server
unfolding report_errors
report_reload now loaded errs s = report_errors now errs (
    note
      (Logging.info now cat_config "server" "pipelines reloaded"
        (("loaded", number loaded) ∷ ("errors", number (length errs)) ∷ []))
      (broadcast now (record no_event { type = "pipelines_reloaded"; steps = loaded })
        (print prefix_ok "pipelines reloaded: %d loaded" (number loaded ∷ []) s)))

-- The variables of watchPipelineDirectories: the server, modTimes, and the number of the next ID.
pub record Watch : Type 0 where
  pub server : Server
  pub mod_times : Dict ℕ
  pub next : ℕ

-- What a tick sees: the file system, the orders in which the maps are visited, the time.
pub record PollTick : Type 0 where
  pub fs : Polled
  pub snapshot_order : List (String × ℕ)
  pub pipeline_order : List (String × PipelineDef)
  pub now : ℕ

-- The part of the round behind the `continue`
unfoldable pub reload : List String → PollTick → Dict ℕ → Watch → Watch
unfolding report_reload
reload dirs tick current w =
    let s : Server = print prefix_info "pipeline files changed, reloading..." [] w.server in
    let (store, loaded, errs) =
      reload_pipelines tick.fs.files tick.pipeline_order dirs s.tracked.store w.next in
    record {
      server =
          report_reload tick.now loaded errs
            (record s { tracked = record s.tracked { store = store } });
      mod_times = current;
      next =
          (reload_directories tick.fs.files dirs
            (record { loaded = []; errs = []; next = w.next })).next;
    }

-- One tick of the loop
unfoldable pub reload_round : List String → PollTick → Watch → Watch
unfolding reload snapshot_pipeline_files
reload_round dirs tick w =
    let current : Dict ℕ = snapshot_pipeline_files tick.fs dirs in
    if pipeline_files_changed tick.snapshot_order w.mod_times current
    then reload dirs tick current w
    else w

-- The ticks until the context is cancelled
unfoldable pub reload_rounds : List String → List PollTick → Watch → Watch
unfolding reload_round
reload_rounds dirs [] w = w
reload_rounds dirs (tick ∷ ticks) w = reload_rounds dirs ticks (reload_round dirs tick w)

-- watchPipelineDirectories, from the file system `fs` at its start
unfoldable pub watch_pipeline_directories :
    List String → Polled → List PollTick → ℕ → Server → Server
unfolding reload_rounds
watch_pipeline_directories [] fs ticks next s = s
watch_pipeline_directories (dir ∷ dirs) fs ticks next s =
    (reload_rounds (dir ∷ dirs) ticks (record {
      server = s;
      mod_times = snapshot_pipeline_files fs (dir ∷ dirs);
      next = next;
    })).server
