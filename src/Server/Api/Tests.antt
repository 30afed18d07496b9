-- ===== src/Server/Api/Tests.antt =====
-- The API on a server with one pipeline, which has no run yet.
use lp.Base.{
  ℕ, String, false, List, [], ◌∷◌, ◌++◌, none, some, str_eq, eq_iff, ◌≡◌, ◌≢◌, refl, map, length,
  keep_if, arith, is_empty, if◌then◌else◌,
}
use lp.Base.Dict
use lp.Base.Dict.{IsOrder, single-IsOrder}
use lp.Logging
use lp.Logging.{Ledger, Entry, level_error, level_info}
use lp.Pipeline.Definition.{PipelineDef}
use lp.Pipeline.Run.{Run}
use lp.Pipeline.Store.{Store, ok, get_pipeline_by_name, create_run, runs_for}
use lp.Pipeline.Store.Runs.{IsIndexed}
use lp.Server.Api.{
  ApiRequest, ApiServer, write_json, history, entry_json, handle_history, handle_pipeline_runs,
}
use lp.Server.Api.Paths.{has_slash, runs_path}
use lp.Server.Api.Answers.{
  has_level, in_category, runs_answer, with_store, handle_history_lem, created_run_shown,
}

abbrev build : PipelineDef
build = record { id = "p1"; name = "build"; steps = []; emit = [] }

abbrev pub store : Store
store = record {
  pipelines = record { entries = ("p1", build) ∷ [] };
  runs = record { entries = [] };
  by_pipeline = record { entries = [] };
}

abbrev entry : ℕ → String → Entry
entry level category = record {
  time = 1;
  level = level;
  category = category;
  source = "server";
  message = "m";
  fields = [];
}

abbrev ledger : Ledger
ledger = record {
  entries =
      entry level_info "config" ∷ entry level_error "pipeline" ∷ entry level_error "config" ∷ [];
}

abbrev pub api : ApiServer ℕ
api = record {
  cfg = record {
    api_addr = ":8080";
    runners = record { timeout = 60; max_concurrent = 2; hooks = [] };
    directories = [];
    listeners = [];
  };
  server = record {
    tracked = record { store = store; active_runs = Dict.empty };
    ledger = ledger;
    output = [];
    broadcasts = [];
    commands = [];
  };
  collector = record { components = Dict.empty; counters = Dict.empty };
  world = 0;
}

abbrev config_errors : String → String
config_errors key = if str_eq key "category" then "config" else "Error"

abbrev get_history : ApiRequest
get_history = record { method = "GET"; path = "/api/history"; query = config_errors }

abbrev pub get_runs : ApiRequest
get_runs = record { method = "GET"; path = runs_path "build"; query = config_errors }

abbrev pub post : ApiRequest
post = record get_runs { method = "POST" }

abbrev pub order : List (String × PipelineDef)
order = ("p1", build) ∷ []

pub not_get : post.method ≢ "GET"
not_get h = ground (arith, eq_iff "POST" "GET")

handle_history_lem_example :
    let shown = keep_if (has_level "Error") (in_category "config" ledger) in
    handle_history api get_history ≡ write_json 200 (history (length shown) (map entry_json shown))
handle_history_lem_example = handle_history_lem api get_history refl

-- One entry is of the category and the level.
one_shown :
    handle_history api get_history
    ≡ write_json 200 (history 1 (entry_json (entry level_error "config") ∷ []))
unfolding handle_history Logging.all
one_shown = refl

pub order-IsOrder : IsOrder order store.pipelines
order-IsOrder = single-IsOrder "p1" build

pub named_build : is_empty "build" ≡ false
unfolding is_empty
named_build = refl

pub plain_build : has_slash "build" ≡ false
unfolding has_slash
plain_build = refl

store-IsIndexed : IsIndexed store
unfolding Dict.get
store-IsIndexed = record { sound = λ pid rid m. absurd m; complete = λ rid r h. cc }

found_build : get_pipeline_by_name order "build" ≡ ok build
unfolding get_pipeline_by_name
found_build = refl

stored_build : Dict.get store.pipelines "p1" ≡ some build
unfolding Dict.get
stored_build = refl

no_run : Dict.get store.runs "r1" ≡ none
unfolding Dict.get
no_run = refl

created_run_shown_example :
    (run : Run) × (t : Store) × (create_run "r1" "p1" store ≡ ok (run, t))
    × (handle_pipeline_runs order 5 (with_store t api) get_runs
        ≡ runs_answer 5 "build" (runs_for "p1" store ++ (run ∷ [])))
created_run_shown_example =
    created_run_shown api order 5 "build" "r1" build get_runs refl refl named_build plain_build
      found_build stored_build no_run store-IsIndexed
