-- ===== src/Server/Startup/Tests.antt =====
-- cmd/server/server.go and main.go: a start with a directory that is missing and a listener without a
-- name.
use lp.Base.{◌+◌, String, List, [], ◌∷◌, length, ◌≡◌, refl}
use lp.Base.Dict
use lp.Errors.{missing_name}
use lp.Logging
use lp.Logging.{Entry, Ledger, level_info, level_error, cat_config, cat_server}
use lp.Pipeline.Store.{Fallible, ok, err}
use lp.Server.Configuration.{Configuration}
use lp.Server.Loading.{Files, load_pipelines, load_directories, load_directory, open_directory}
use lp.Server.Listeners.{register_configured_listeners}
use lp.Server.Startup.{new_server}
use lp.Server.Startup.Started.{loaded_by, registered_by}

abbrev cfg : Configuration
cfg = record {
  api_addr = "";
  runners = record { timeout = 60; max_concurrent = 2; hooks = [] };
  directories = "missing" ∷ [];
  listeners = record { type = "webhook"; name = ""; pipeline = "build"; config = Dict.empty } ∷ [];
}

abbrev no_files : Files
no_files = record {
  stat = λ dir. err missing_name;
  read_dir = λ dir. err missing_name;
  read_file = λ path. err missing_name;
  decode = λ content. err missing_name;
  join = λ dir name. name;
  fresh_id = λ n. "p";
}

abbrev args : List String
args = "lp-server" ∷ "lp.yaml" ∷ []

abbrev read_text : String → Fallible String
read_text path = ok "api_addr: \"\""

abbrev decode_text : String → Fallible Configuration
decode_text content = ok cfg

one_error : length (loaded_by no_files cfg).errs ≡ 1
unfolding load_pipelines load_directories load_directory open_directory
one_error = refl

one_refused : length (registered_by cfg).errs ≡ 1
unfolding register_configured_listeners
one_refused = refl

abbrev first_ledger : Ledger
first_ledger = (new_server (λ n. n + 5) no_files cfg).server.ledger

-- All its entries are of one category.
abbrev groups : List (String × List Entry)
groups = (cat_config, first_ledger.entries) ∷ []
