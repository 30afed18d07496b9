-- ===== src/Server/Api.antt =====
-- cmd/server/api.go: the handlers of the REST API. What net/http and the JSON encoder do is a
-- parameter: a request is its method, path and query, and an answer is a status with the value that
-- is encoded. `omitempty` fields keep their empty values here.
mod Json
mod Texts
mod Paths
mod Answers
pub mod Routes
mod Tests
use Prim.Native.Char.{code}
use lp.Base.{
  ℕ, String, Bool, true, false, List, [], ◌∷◌, ◌++◌, Option, none, some, ◌==◌, ltb, leb, ◌+◌, not,
  ◌&&◌, map, length, str_eq, is_empty, if◌then◌else◌,
}
use lp.Base.Dict.{Dict}
use lp.Errors.{GoError}
use lp.Logging.{Entry, Fields, level_string}
use lp.Logging
use lp.Observability.Tracker.{Stats}
use lp.Observability.Collector.{Collector, Snapshot}
use lp.Observability.Collector
use lp.Pipeline.Definition.{PipelineDef, StepDef}
use lp.Pipeline.Run.{Run, Status, pending, running, completed, failed, StepResult, duration}
use lp.Pipeline.Store.{Fallible, ok, err, get_pipeline_by_name, pipelines, runs_for}
use lp.Server.State.{Server}
use lp.Server.Configuration.{Configuration, ListenerEntry, ConfigValue}
unfoldable pub use Json.*
unfoldable pub use Texts.*

-- The server as the handlers see it. `W` is what the stats providers read.
pub record ApiServer (W : Type 0) : Type 0 where
  pub cfg : Configuration
  pub server : Server
  pub collector : Collector W
  pub world : W

-- http.Error(w, "method not allowed", http.StatusMethodNotAllowed)
abbrev pub method_not_allowed : ApiAnswer
method_not_allowed = record { status = 405; body = plain "method not allowed" }

-- http.NotFound
abbrev pub not_found : ApiAnswer
not_found = record { status = 404; body = plain "404 page not found" }

-- writeJSON
abbrev pub write_json : ℕ → ApiBody → ApiAnswer
write_json status body = record { status = status; body = body }

-- The loops of handleStatus over a snapshot's hooks and over the snapshots
unfoldable pub hook_stats : String → List Stats → List StatJson
hook_stats component [] = []
hook_stats component (h ∷ hs) =
    record {
      component = component;
      hook = h.name;
      listeners = h.listeners;
      emit_count = h.emit_count;
      panics_caught = h.panics_caught;
    }
    ∷ hook_stats component hs

unfoldable pub snapshot_stats : List Snapshot → List StatJson
unfolding hook_stats
snapshot_stats [] = []
snapshot_stats (s ∷ rest) = hook_stats s.component s.hooks ++ snapshot_stats rest

-- The guards of the loop of handleHistory: whether an entry is shown
unfoldable pub is_shown : String → String → Entry → Bool
unfolding is_empty equal_fold level_string
is_shown cat_filter level_filter e =
    if not (is_empty cat_filter) && not (str_eq e.category cat_filter)
    then false
    else if not (is_empty level_filter) && not (equal_fold (level_string e.level) level_filter)
    then false
    else true

-- The loop of handleHistory
unfoldable pub shown_entries : String → String → List Entry → List EntryJson
unfolding is_shown entry_json
shown_entries cat_filter level_filter [] = []
shown_entries cat_filter level_filter (e ∷ es) =
    let rest = shown_entries cat_filter level_filter es in
    if is_shown cat_filter level_filter e then entry_json e ∷ rest else rest

module _ {W : Type 0} where
  -- handleStatus, given the orders in which the pipelines and the collector are visited
  unfoldable pub handle_status :
      List (String × PipelineDef)
      → List (String × List (String × ℕ))
      → ApiServer W
      → ApiRequest
      → ApiAnswer
  unfolding snapshot_stats
  handle_status order snapshots a r =
      if not (str_eq r.method "GET")
      then method_not_allowed
      else write_json 200 (
          server_status (map (λ (p : PipelineDef). p.name) (pipelines order)) a.cfg.runners.timeout
            a.cfg.runners.max_concurrent
            (snapshot_stats (Collector.all snapshots a.collector a.world)))

  -- handleHistory
  unfoldable pub handle_history : ApiServer W → ApiRequest → ApiAnswer
  unfolding shown_entries
  handle_history a r =
      let result : List EntryJson =
        shown_entries (r.query "category") (r.query "level") (Logging.all a.server.ledger) in
      if not (str_eq r.method "GET")
      then method_not_allowed
      else write_json 200 (history (length result) result)

  -- handlePipelines
  unfoldable pub handle_pipelines :
      List (String × PipelineDef) → ApiServer W → ApiRequest → ApiAnswer
  unfolding pipeline_json
  handle_pipelines order a r =
      if not (str_eq r.method "GET")
      then method_not_allowed
      else if not (str_eq r.path "/api/pipelines")
      then not_found
      else write_json 200 (all_pipelines (map pipeline_json (pipelines order)))

  -- What follows the parsing of the path in handlePipelineRuns
  unfoldable pub show_runs : ℕ → String → Fallible PipelineDef → ApiServer W → ApiAnswer
  unfolding run_json
  show_runs now name (err e) a = write_json 404 (error_json e)
  show_runs now name (ok p) a =
      let result : List RunJson = map (run_json now) (runs_for p.id a.server.tracked.store) in
      write_json 200 (pipeline_runs name (length result) result)

  -- handlePipelineRuns
  unfoldable pub handle_pipeline_runs :
      List (String × PipelineDef) → ℕ → ApiServer W → ApiRequest → ApiAnswer
  unfolding runs_path_name show_runs
  handle_pipeline_runs order now a r =
      if not (str_eq r.method "GET") then method_not_allowed else elim (runs_path_name r.path) [
        | none ↦ not_found
        | some name ↦ show_runs now name (get_pipeline_by_name order name) a
      ]

  -- handleListeners
  unfoldable pub handle_listeners : ApiServer W → ApiRequest → ApiAnswer
  unfolding listener_json
  handle_listeners a r =
      if not (str_eq r.method "GET")
      then method_not_allowed
      else write_json 200 (all_listeners (map listener_json a.cfg.listeners))

-- The handler of "/"
unfoldable pub handle_dashboard : ApiRequest → ApiAnswer
handle_dashboard r =
    if not (str_eq r.path "/") then not_found else record { status = 200; body = dashboard }
