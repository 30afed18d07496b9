-- ===== src/Server/Api/Routes/Tests.antt =====
-- The routes of newAPI with a mux that picks as net/http documents.
use mathlib.Core.Path.{subst}
use lp.Base.{
  ℕ, String, true, false, List, [], ◌∷◌, Option, none, some, ◌&&◌, ◌≡◌, ◌≢◌, ◌⊎◌, inl, inr, refl,
  ap, ◌∙◌, str_eq-cases, is_empty, eq_iff, if◌then◌else◌, arith,
}
use lp.Server.Api.{trim_prefix}
use lp.Base.Dict
use lp.Errors.{pipeline_name_not_found}
use lp.Pipeline.Definition.{PipelineDef}
use lp.Pipeline.Store.{runs_for}
use lp.Server.Hub.{Hub, UpgradeRequest, unsupported}
use lp.Server.Api.{ApiRequest, method_not_allowed, write_json, error_json}
use lp.Server.Api.Answers.{runs_answer}
use lp.Server.Api.Tests.{
  store, api, get_runs, post, order, not_get, order-IsOrder, named_build, plain_build,
}
use lp.Server.Api.Routes.{
  Route, HttpRequest, Visit, routes, to_pipeline_runs, to_dashboard, to_status, to_history,
  to_pipelines, to_listeners, to_upgrade, answered, serve,
}
use lp.Server.Api.Routes.Mux.{exact_route, has_prefix, ends_in_slash, covers, is_closest, IsMux}
use lp.Server.Api.Routes.Served.{other_method, below_pipelines, serve_refused, serve_runs}

-- The first pattern that covers the path, and than which none that covers it is longer
abbrev first_closest : List (String × Route) → String → List (String × Route) → Option Route
first_closest table path [] = none
first_closest table path ((pattern, route) ∷ rest) =
    let later = first_closest table path rest in
    if covers pattern path && is_closest pattern path table then some route else later

abbrev pick_route : List (String × Route) → String → Option Route
pick_route table path = elim (exact_route path table) [
  | some route ↦ some route
  | none ↦ first_closest table path table
]

exact_route-cons :
    (p q : String) (route x : Route) (rest : List (String × Route))
    → exact_route p ((q, x) ∷ rest) ≡ some route
    → ((p ≡ q) × (x ≡ route)) ⊎ (exact_route p rest ≡ some route)
unfolding exact_route
exact_route-cons p q route x rest found = elim (str_eq-cases p q) [
  | inl same ↦ inl (same, ground (arith, found, (eq_iff p q).1 same))
  | inr other ↦ inr (ground (arith, found, other))
]

-- A pattern that covers nothing is not the one that covers a path.
exact_route-skip :
    (p q path : String) (route x : Route) (rest : List (String × Route))
    → covers p path ≡ true
    → covers q path ≡ false
    → exact_route p ((q, x) ∷ rest) ≡ some route
    → exact_route p rest ≡ some route
exact_route-skip p q path route x rest cover bare found =
    elim (exact_route-cons p q route x rest found) [ inl same ↦ cc | inr later ↦ later ]

abbrev behind_pipelines : List (String × Route)
behind_pipelines = ("/api/listeners", to_listeners) ∷ ("/ws", to_upgrade) ∷ []

abbrev from_subtree : List (String × Route)
from_subtree = ("/api/pipelines/", to_pipeline_runs) ∷ behind_pipelines

abbrev from_history : List (String × Route)
from_history = ("/api/history", to_history) ∷ ("/api/pipelines", to_pipelines) ∷ from_subtree

-- The patterns that end in a slash
subtrees :
    (p path : String) (route : Route)
    → exact_route p routes ≡ some route
    → covers p path ≡ true
    → ((p ≡ "/") × (to_dashboard ≡ route)) ⊎ ((p ≡ "/api/pipelines/") × (to_pipeline_runs ≡ route))
unfolding exact_route covers ends_in_slash is_empty
subtrees p path route found cover =
    elim (exact_route-cons p "/" route to_dashboard (("/api/status", to_status) ∷ from_history)
      found) [
        | inl same ↦ inl same
        | inr later ↦
            elim (exact_route-cons p "/api/pipelines/" route to_pipeline_runs behind_pipelines (
              exact_route-skip p "/api/pipelines" path route to_pipelines from_subtree cover refl (
                exact_route-skip p "/api/history" path route to_history
                  (("/api/pipelines", to_pipelines) ∷ from_subtree) cover refl
                  (exact_route-skip p "/api/status" path route to_status from_history cover refl
                    later)))) [
                      | inl same ↦ inr same
                      | inr last ↦
                          let nothing_left : none ≡ some route =
                            exact_route-skip p "/ws" path route to_upgrade [] cover refl (
                              exact_route-skip p "/api/listeners" path route to_listeners
                                (("/ws", to_upgrade) ∷ []) cover refl last) in
                          cc
                    ]
      ]

abbrev from_status : List (String × Route)
from_status = ("/api/status", to_status) ∷ from_history

picks_root :
    (path : String)
    → covers "/" path ≡ true
    → is_closest "/" path routes ≡ true
    → first_closest routes path routes ≡ some to_dashboard
picks_root path cover closest = ground (arith, cover, closest)

root_closest :
    (path : String) → covers "/api/pipelines/" path ≡ true → is_closest "/" path routes ≡ false
unfolding is_closest has_prefix trim_prefix
root_closest path cover = ground (arith, cover)

bare : (p path : String) → ends_in_slash p ≡ false → covers p path ≡ false
unfolding covers
bare p path no_slash = rw no_slash refl

picks_below :
    (path : String)
    → covers "/api/pipelines/" path ≡ true
    → is_closest "/api/pipelines/" path routes ≡ true
    → first_closest routes path routes ≡ some to_pipeline_runs
unfolding ends_in_slash is_empty
picks_below path cover closest = ground (
  arith,
  cover,
  closest,
  root_closest path cover,
  bare "/api/status" path refl,
  bare "/api/history" path refl,
  bare "/api/pipelines" path refl,
)

pick_route-IsMux : IsMux (λ path. path) routes (pick_route routes)
pick_route-IsMux = record {
  exact = λ path route plain found. ground (arith, found);
  subtree = λ path p route plain none_exact found cover closest.
      let falls : pick_route routes path ≡ first_closest routes path routes =
        rw (pick_route, none_exact) refl in
      elim (subtrees p path route found cover) [
        | inl (same, goes) ↦
            falls
            ∙ picks_root path (subst (λ q. covers q path ≡ true) same cover)
                (subst (λ q. is_closest q path routes ≡ true) same closest)
            ∙ ap some goes
        | inr (same, goes) ↦
            falls
            ∙ picks_below path (subst (λ q. covers q path ≡ true) same cover)
                (subst (λ q. is_closest q path routes ≡ true) same closest)
            ∙ ap some goes
      ];
}

abbrev no_upgrade : UpgradeRequest
no_upgrade = record { upgrade = ""; key = ""; hijack = unsupported }

abbrev plain_request : ApiRequest → HttpRequest
plain_request r = record { request = r; upgrade = no_upgrade }

abbrev visit : Visit
visit = record { order = order; snapshots = []; now = 5 }

abbrev no_hub : Hub ℕ
no_hub = record { clients = []; net = 0 }

abbrev no_digest : String → String
no_digest s = s

serve_refused_example :
    serve no_digest pick_route visit api (plain_request post) no_hub
    ≡ (answered method_not_allowed, no_hub)
serve_refused_example =
    serve_refused (λ path. path) pick_route pick_route-IsMux no_digest visit api
      (plain_request post) no_hub refl method_not_allowed
      (other_method (below_pipelines "build/runs") refl not_get)

serve_runs_example :
    ((p : PipelineDef) × (id : String) × (Dict.get store.pipelines id ≡ some p)
      × (p.name ≡ "build")
      × (serve no_digest pick_route visit api (plain_request get_runs) no_hub
          ≡ (answered (runs_answer 5 "build" (runs_for p.id store)), no_hub)))
    ⊎ (((id : String) (p : PipelineDef) → Dict.get store.pipelines id ≡ some p → p.name ≢ "build")
        × (serve no_digest pick_route visit api (plain_request get_runs) no_hub
            ≡ (answered (write_json 404 (error_json (pipeline_name_not_found "build"))), no_hub)))
serve_runs_example =
    serve_runs (λ path. path) pick_route pick_route-IsMux no_digest visit api
      (plain_request get_runs) no_hub refl "build" refl refl named_build plain_build order-IsOrder
