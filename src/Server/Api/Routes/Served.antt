-- ===== src/Server/Api/Routes/Served.antt =====
-- cmd/server/api.go, newAPI: which handler answers a request.
use lp.Base.{
  String, false, List, Option, none, some, ◌<>◌, ◌≡◌, ◌≢◌, ◌⊎◌, inl, inr, ap, refl, sym, ◌∙◌,
  eq_iff, is_empty, arith,
}
use mathlib.Core.Path.{subst}
use lp.Base.Dict
use lp.Base.Dict.{IsOrder}
use lp.Errors.{pipeline_name_not_found}
use lp.Pipeline.Definition.{PipelineDef}
use lp.Pipeline.Store.{runs_for}
use lp.Server.Hub.{Hub}
use lp.Server.Api.Routes.{
  Route, HttpRequest, Visit, routes, to_status, to_history, to_pipelines, to_pipeline_runs,
  to_listeners, answered, serve, serve_route, to_dashboard,
}
use lp.Server.Api.Routes.Mux.{
  exact_route, has_prefix, ends_in_slash, covers, is_closest, IsMux, is_below, below_all,
}
use lp.Server.Api.Json.{ApiRequest, ApiAnswer, error_json}
use lp.Server.Api.{
  ApiServer, trim_prefix, runs_path_name, method_not_allowed, not_found, write_json,
  handle_pipeline_runs, handle_dashboard,
}
use lp.Server.Api.Paths.{has_slash, runs_path}
use lp.Server.Api.Answers.{runs_answer, others_refused, handle_pipeline_runs_lem}

-- The paths of the API
pub data Endpoint : Type 0 where
  at_status : Endpoint
  at_history : Endpoint
  at_pipelines : Endpoint
  at_listeners : Endpoint
  below_pipelines : String → Endpoint

abbrev pub endpoint_path : Endpoint → String
endpoint_path at_status = "/api/status"
endpoint_path at_history = "/api/history"
endpoint_path at_pipelines = "/api/pipelines"
endpoint_path at_listeners = "/api/listeners"
endpoint_path (below_pipelines rest) = "/api/pipelines/" <> rest

abbrev pub endpoint_route : Endpoint → Route
endpoint_route at_status = to_status
endpoint_route at_history = to_history
endpoint_route at_pipelines = to_pipelines
endpoint_route at_listeners = to_listeners
endpoint_route (below_pipelines rest) = to_pipeline_runs

-- The requests that the API refuses, and how: a method other than GET, a path that is not a
-- pattern's and not below /api/pipelines/, and one below that names no pipeline.
pub data IsRefused (r : ApiRequest) : ApiAnswer → Type 0 where
  other_method :
      (e : Endpoint) → r.path ≡ endpoint_path e → r.method ≢ "GET" → IsRefused r method_not_allowed
  unknown :
      (rest : String)
      → r.path ≡ "/" <> rest
      → exact_route r.path routes ≡ none
      → has_prefix "/api/pipelines/" r.path ≡ false
      → IsRefused r not_found
  nameless :
      (rest : String)
      → r.path ≡ "/api/pipelines/" <> rest
      → r.method ≡ "GET"
      → runs_path_name r.path ≡ none
      → IsRefused r not_found

module _ (clean : String → String) (pick : List (String × Route) → String → Option Route)
    (mux : IsMux clean routes (pick routes)) where
  picked :
      (e : Endpoint)
      → clean (endpoint_path e) ≡ endpoint_path e
      → pick routes (endpoint_path e) ≡ some (endpoint_route e)
  unfolding exact_route covers is_closest has_prefix ends_in_slash is_empty trim_prefix is_below
  picked at_status plain = mux.exact "/api/status" to_status plain refl
  picked at_history plain = mux.exact "/api/history" to_history plain refl
  picked at_pipelines plain = mux.exact "/api/pipelines" to_pipelines plain refl
  picked at_listeners plain = mux.exact "/api/listeners" to_listeners plain refl
  picked (below_pipelines String.[]) plain = mux.exact "/api/pipelines/" to_pipeline_runs plain refl
  picked (below_pipelines (String.◌∷◌ c s)) plain =
      mux.subtree ("/api/pipelines/" <> String.◌∷◌ c s) "/api/pipelines/" to_pipeline_runs plain
        (below_all ("/api/pipelines/" <> String.◌∷◌ c s) refl) refl refl refl

  picked_dashboard :
      (rest : String)
      → clean ("/" <> rest) ≡ "/" <> rest
      → exact_route ("/" <> rest) routes ≡ none
      → has_prefix "/api/pipelines/" ("/" <> rest) ≡ false
      → pick routes ("/" <> rest) ≡ some to_dashboard
  unfolding exact_route covers is_closest has_prefix ends_in_slash is_empty trim_prefix
  picked_dashboard rest plain none_exact not_below =
      mux.subtree ("/" <> rest) "/" to_dashboard plain none_exact refl refl
        (ground (arith, not_below))

  module _ {W N : Type 0} (digest : String → String) (v : Visit) (a : ApiServer W) (r : HttpRequest)
      (h : Hub N) (plain : clean r.request.path ≡ r.request.path) where
    at_endpoint :
        (e : Endpoint)
        → r.request.path ≡ endpoint_path e
        → pick routes r.request.path ≡ some (endpoint_route e)
    at_endpoint e path =
        subst (λ q. clean q ≡ q → pick routes q ≡ some (endpoint_route e)) (sym path) (picked e)
          plain

    serves :
        (route : Route)
        → pick routes r.request.path ≡ some route
        → serve digest pick v a r h ≡ serve_route digest v a route r h
    unfolding serve
    serves route picks = rw (serve, picks) refl

    refuses_method :
        (e : Endpoint)
        → r.request.method ≢ "GET"
        → serve_route digest v a (endpoint_route e) r h ≡ (answered method_not_allowed, h)
    unfolding serve_route
    refuses_method e other =
        let (s, hi, ps, rs, ls) = others_refused a r.request v.order v.snapshots v.now other in
        elim e
          as (λ k.
            serve_route digest v a (endpoint_route k) r h ≡ (answered method_not_allowed, h)) [
              | at_status ↦ ap (λ x. (answered x, h)) s
              | at_history ↦ ap (λ x. (answered x, h)) hi
              | at_pipelines ↦ ap (λ x. (answered x, h)) ps
              | at_listeners ↦ ap (λ x. (answered x, h)) ls
              | below_pipelines rest ↦ ap (λ x. (answered x, h)) rs
            ]

    dashboard_lost :
        exact_route r.request.path routes ≡ none
        → serve_route digest v a to_dashboard r h ≡ (answered not_found, h)
    unfolding serve_route handle_dashboard exact_route
    dashboard_lost none_exact = ground (arith, none_exact)

    runs_lost :
        r.request.method ≡ "GET"
        → runs_path_name r.request.path ≡ none
        → serve_route digest v a to_pipeline_runs r h ≡ (answered not_found, h)
    unfolding serve_route handle_pipeline_runs
    runs_lost get parsed = ground (arith, (eq_iff r.request.method "GET").1 get, parsed)

    -- With a mux that picks as net/http documents, a request that the API refuses, of a path that need
    -- not be cleaned, gets its refusal from newAPI's server and leaves the connections alone: 405 for
    -- a path of the API with another method than GET, and 404 for a path that is not a pattern's and
    -- not below /api/pipelines/, and for a GET of a path below it that names no pipeline.
    pub serve_refused :
        (answer : ApiAnswer)
        → IsRefused r.request answer
        → serve digest pick v a r h ≡ (answered answer, h)
    serve_refused answer (other_method e path other) =
        serves (endpoint_route e) (at_endpoint e path) ∙ refuses_method e other
    serve_refused answer (unknown rest path none_exact not_below) =
        serves to_dashboard (
          subst
            (λ q.
              clean q ≡ q
              → exact_route q routes ≡ none
              → has_prefix "/api/pipelines/" q ≡ false
              → pick routes q ≡ some to_dashboard)
            (sym path) (picked_dashboard rest) plain none_exact not_below)
        ∙ dashboard_lost none_exact
    serve_refused answer (nameless rest path get parsed) =
        serves to_pipeline_runs (at_endpoint (below_pipelines rest) path) ∙ runs_lost get parsed

    runs_served :
        (name : String)
        → r.request.path ≡ runs_path name
        → serve digest pick v a r h ≡ (answered (handle_pipeline_runs v.order v.now a r.request), h)
    unfolding serve_route
    runs_served name path =
        serves to_pipeline_runs (at_endpoint (below_pipelines (name <> "/runs")) path)

    -- With a mux that picks as net/http documents, a GET of /api/pipelines/{name}/runs, a path that
    -- need not be cleaned with a name that is not empty and has no slash, is answered by newAPI's
    -- server with the runs that RunsFor finds of a stored pipeline of the name, in their order and with
    -- their number, or, if no stored pipeline has the name, with 404 and the error of the lookup; the
    -- connections are left alone.
    pub serve_runs :
        (name : String)
        → r.request.method ≡ "GET"
        → r.request.path ≡ runs_path name
        → is_empty name ≡ false
        → has_slash name ≡ false
        → IsOrder v.order a.server.tracked.store.pipelines
        → ((p : PipelineDef) × (id : String) × (Dict.get a.server.tracked.store.pipelines id
              ≡ some p)
            × (p.name ≡ name)
            × (serve digest pick v a r h
                ≡ (answered (runs_answer v.now name (runs_for p.id a.server.tracked.store)), h)))
          ⊎ (((id : String) (p : PipelineDef)
                → Dict.get a.server.tracked.store.pipelines id ≡ some p
                → p.name ≢ name)
              × (serve digest pick v a r h
                  ≡ (answered (write_json 404 (error_json (pipeline_name_not_found name))), h)))
    serve_runs name get path some_name plain_name is_order =
        elim (handle_pipeline_runs_lem a v.order v.now name r.request get path some_name plain_name
          is_order) [
            | inl (p, id, stored, named, shown) ↦
                inl (p, id, stored, named, runs_served name path ∙ ap (λ x. (answered x, h)) shown)
            | inr (missing, shown) ↦
                inr (missing, runs_served name path ∙ ap (λ x. (answered x, h)) shown)
          ]
