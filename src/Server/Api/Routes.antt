-- ===== src/Server/Api/Routes.antt =====
-- cmd/server/api.go, newAPI: the patterns that it registers and the handlers behind them. net/http's
-- ServeMux is a parameter: what it picks for a path, none where it answers itself. The hub of ws.go is
-- in the state that /ws reads and changes.
mod Mux
mod Served
mod Tests
use lp.Base.{ℕ, String, Bool, List, [], ◌∷◌, Option, none, some}
use lp.Pipeline.Definition.{PipelineDef}
use lp.Server.Api.Json.{ApiRequest, ApiAnswer}
use lp.Server.Api.{
  ApiServer, handle_status, handle_history, handle_pipelines, handle_pipeline_runs,
  handle_listeners, handle_dashboard,
}
use lp.Server.Hub.{Hub, UpgradeRequest, UpgradeAnswer, handle_upgrade}

-- The handlers that newAPI passes to HandleFunc
pub data Route : Type 0 where
  to_dashboard : Route
  to_status : Route
  to_history : Route
  to_pipelines : Route
  to_pipeline_runs : Route
  to_listeners : Route
  to_upgrade : Route

-- The patterns of newAPI
abbrev pub routes : List (String × Route)
routes =
    ("/", to_dashboard)
    ∷ ("/api/status", to_status)
    ∷ ("/api/history", to_history)
    ∷ ("/api/pipelines", to_pipelines)
    ∷ ("/api/pipelines/", to_pipeline_runs)
    ∷ ("/api/listeners", to_listeners)
    ∷ ("/ws", to_upgrade)
    ∷ []

-- A request, with what handleUpgrade reads of it
pub record HttpRequest : Type 0 where
  pub request : ApiRequest
  pub upgrade : UpgradeRequest

-- How a request is answered: by the mux itself, by a handler of the API, or by handleUpgrade
pub data Response : Type 0 where
  by_mux : Response
  answered : ApiAnswer → Response
  upgraded : UpgradeAnswer → Response

-- The orders in which the handlers visit the maps, and the time
pub record Visit : Type 0 where
  pub order : List (String × PipelineDef)
  pub snapshots : List (String × List (String × ℕ))
  pub now : ℕ

module _ {W N : Type 0} (digest : String → String) where
  -- The handler that a pattern is registered with
  unfoldable pub serve_route : Visit → ApiServer W → Route → HttpRequest → Hub N → Response × Hub N
  serve_route v a to_dashboard r h = (answered (handle_dashboard r.request), h)
  serve_route v a to_status r h = (answered (handle_status v.order v.snapshots a r.request), h)
  serve_route v a to_history r h = (answered (handle_history a r.request), h)
  serve_route v a to_pipelines r h = (answered (handle_pipelines v.order a r.request), h)
  serve_route v a to_pipeline_runs r h =
      (answered (handle_pipeline_runs v.order v.now a r.request), h)
  serve_route v a to_listeners r h = (answered (handle_listeners a r.request), h)
  serve_route v a to_upgrade r h =
      let (answer, after) = handle_upgrade digest r.upgrade h in (upgraded answer, after)

  -- The handler of the server that newAPI makes; `pick` is what the mux of a list of patterns picks.
  unfoldable pub serve :
      (List (String × Route) → String → Option Route)
      → Visit
      → ApiServer W
      → HttpRequest
      → Hub N
      → Response × Hub N
  unfolding serve_route
  serve pick v a r h = elim (pick routes r.request.path) [
    | none ↦ (by_mux, h)
    | some route ↦ serve_route v a route r h
  ]
