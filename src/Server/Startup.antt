-- ===== src/Server/Startup.antt =====
-- cmd/server/server.go, newServer and registerObservability, and main of main.go. `clock` tells the
-- time at the n-th call of time.Now by the ledger. The log/slog logger writes to io.Discard, and is
-- left out.
mod Report
mod Summary
mod Started
mod Tests
use lp.Base.{ℕ, String, Bool, true, false, List, [], ◌∷◌, ◌++◌, Option, none, some, length}
use lp.Errors.{GoError}
use lp.Logging.{Ledger, Entry, Fields, text, texts, number, failure, cat_config, new_ledger}
use lp.Logging
use lp.Observability.Tracker.{Stats}
use lp.Observability.Collector.{Collector, new_collector, register_hooks_source}
use lp.Pipeline.Definition.{PipelineDef}
use lp.Pipeline.Store.{Fallible, ok, err, new_store, pipelines}
use lp.Runners.Hooks.{Hooks}
use lp.Runners.Hooks as RunnerHooks
use lp.Runners.Pool.{Pool, new_pool}
use lp.Listener.Hooks.{listener_stats}
use lp.Listener.Manager.{Manager, new_manager}
use lp.Base.Dict
use lp.Server.State.{Server}
use lp.Server.Wiring.{
  register_configured_hooks, register_cli_hooks, register_run_tracking, register_ws_broadcast,
}
use lp.Server.Configuration.{Configuration, runners_config, load_configuration}
use lp.Server.Loading.{Files, Loaded, load_pipelines}
use lp.Server.Listeners.{Registration, listener_factories, register_configured_listeners}
use lp.Server.Loops.{print_startup_summary}

-- What the stats providers read: the pool and the manager, as they are when they are called.
pub record Live : Type 0 where
  pub pool : Pool Server
  pub mgr : Manager Server

-- server, with the parts that `Server` leaves to their own packages
pub record Wired : Type 0 where
  pub cfg : Configuration
  pub server : Server
  pub live : Live
  pub collector : Collector Live

-- ledger.Info and ledger.Error, at the time of the call
unfoldable pub info_now : (ℕ → ℕ) → String → Fields → Ledger → Ledger
info_now clock message fields l =
    Logging.info (clock (length l.entries)) cat_config "server" message fields l

unfoldable pub error_now : (ℕ → ℕ) → String → Fields → Ledger → Ledger
error_now clock message fields l =
    Logging.error (clock (length l.entries)) cat_config "server" message fields l

-- The loops over loadErrs and listenerErrs
unfoldable pub log_errors : (ℕ → ℕ) → String → List GoError → Ledger → Ledger
unfolding error_now
log_errors clock message [] l = l
log_errors clock message (e ∷ es) l =
    log_errors clock message es (error_now clock message (("error", failure e) ∷ []) l)

-- The ledger of newServer
unfoldable pub startup_ledger : (ℕ → ℕ) → Configuration → Loaded → Registration Server → Ledger
unfolding info_now log_errors
startup_ledger clock cfg loaded registration =
    let configured : Ledger =
      info_now clock "configuration loaded"
        (("timeout", number cfg.runners.timeout)
          ∷ ("max_concurrent", number cfg.runners.max_concurrent)
          ∷ ("pipeline_directories", texts cfg.directories)
          ∷ [])
        new_ledger in
    let with_pipelines : Ledger = log_errors clock "pipeline load error" loaded.errs (
      info_now clock "pipelines loaded"
        (("loaded", number loaded.loaded) ∷ ("errors", number (length loaded.errs)) ∷ [])
        configured) in
    log_errors clock "listener config error" registration.errs (
      info_now clock "listeners configured"
        (("registered", number registration.registered)
          ∷ ("errors", number (length registration.errs))
          ∷ [])
        with_pipelines)

-- newServer
unfoldable pub new_server : (ℕ → ℕ) → Files → Configuration → Wired
unfolding startup_ledger
new_server clock fs cfg =
    let loaded : Loaded = load_pipelines fs cfg.directories new_store 0 in
    let pool : Pool Server = record (new_pool (runners_config cfg)) { event_sink = some [] } in
    let hooks : Hooks Server = register_configured_hooks cfg.runners.hooks pool.hooks in
    let registration : Registration Server =
      register_configured_listeners listener_factories (new_manager 64) cfg.listeners in
    record {
      cfg = cfg;
      server = record {
        tracked = record { store = loaded.store; active_runs = Dict.empty };
        ledger = startup_ledger clock cfg loaded registration;
        output = [];
        broadcasts = [];
        commands = [];
      };
      live = record { pool = record pool { hooks = hooks }; mgr = registration.mgr };
      collector = new_collector;
    }

-- s.pool.Hooks.Stats and s.mgr.Hooks.Stats: method values of pointers
unfoldable pub pool_stats : Live → List Stats
pool_stats live = RunnerHooks.stats live.pool.hooks

unfoldable pub manager_stats : Live → List Stats
manager_stats live = listener_stats live.mgr.hooks

-- registerObservability
unfoldable pub register_observability : Wired → Wired
unfolding pool_stats manager_stats
register_observability w = record w {
  collector =
      register_hooks_source "listeners" manager_stats
        (register_hooks_source "runners" pool_stats w.collector);
}

-- registerCLIHooks, registerRunTracking and registerWSBroadcast, on the server's pool
unfoldable pub on_hooks : (Hooks Server → Hooks Server) → Wired → Wired
on_hooks register w = record w {
  live = record w.live { pool = record w.live.pool { hooks = register w.live.pool.hooks } };
}

-- main up to run: it ends with the error of loadConfiguration, or goes on with the server.
pub data Main : Type 0 where
  exited : GoError → Main
  running : Wired → Main

-- main between loadConfiguration and run, given the orders in which Pipelines and Grouped visit
-- their maps
unfoldable pub wire_server :
    (ℕ → ℕ)
    → Files
    → List (String × PipelineDef)
    → List (String × List Entry)
    → Configuration
    → Wired
unfolding new_server register_observability on_hooks
wire_server clock fs order groups cfg =
    let w : Wired = register_observability (
      on_hooks register_ws_broadcast
        (on_hooks register_run_tracking (on_hooks register_cli_hooks (new_server clock fs cfg)))) in
    record w { server = print_startup_summary (pipelines order) groups w.server }

unfoldable pub start_server :
    List String
    → (String → Fallible String)
    → (String → Fallible Configuration)
    → (ℕ → ℕ)
    → Files
    → List (String × PipelineDef)
    → List (String × List Entry)
    → Main
start_server args read_file decode clock fs order groups =
    elim (load_configuration args read_file decode) [
      | err e ↦ exited e
      | ok cfg ↦ running (wire_server clock fs order groups cfg)
    ]
