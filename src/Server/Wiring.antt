-- ===== src/Server/Wiring.antt =====
-- cmd/server/server.go and events.go: the callbacks of registerWSBroadcast and of the configured
-- hooks, and the registration of all hooks in the order of newServer and main.
pub mod Emits
pub mod Registered
use lp.Base.{
  ℕ, ◌*◌, ◌%◌, ◌^◌, ◌==◌, String, List, [], ◌∷◌, ◌++◌, Option, none, some, lower_eq, length,
  if◌then◌else◌,
}
use lp.Errors.{GoError}
use lp.Logging.{Value, text, failure}
use lp.Runners.Step.{Result, Config}
use lp.Runners.Hooks.{
  Callback, Hooks, returned, new_hooks, set_panic_handler, on_pipeline_started,
  on_pipeline_completed, on_pipeline_failed, on_step_started, on_step_completed, on_step_failed,
}
use lp.Runners.Pool.{Pool, new_pool}
use lp.Server.State.{
  Server, WsEvent, HookCommand, cli_pipeline_started, cli_pipeline_completed, cli_pipeline_failed,
  cli_step_started, cli_step_completed, cli_step_failed, handle_panic,
}
use lp.Server.Tracking

-- wsHub.broadcast, as far as the hooks see it: the event is stamped and handed to the clients.
unfoldable pub broadcast : ℕ → WsEvent → Server → Server
broadcast now e s =
    let stamped : WsEvent = if e.time == 0 then record e { time = now } else e in
    record s { broadcasts = s.broadcasts ++ stamped ∷ [] }

-- wsEvent{}
abbrev pub no_event : WsEvent
no_event = record {
  type = "";
  time = 0;
  pipeline = "";
  step = "";
  status = "";
  error = none;
  stdout = "";
  stderr = "";
  steps = 0;
}

-- The six callbacks of registerWSBroadcast
unfoldable pub ws_pipeline_started : Callback String Server
ws_pipeline_started now p s = returned (
    broadcast now (record no_event { type = "pipeline_started"; pipeline = p; status = "running" })
      s)

unfoldable pub ws_pipeline_completed : Callback (String × List Result) Server
ws_pipeline_completed now (p, results) s = returned (
    broadcast now
      (record no_event {
        type = "pipeline_completed";
        pipeline = p;
        status = "completed";
        steps = length results;
      })
      s)

unfoldable pub ws_pipeline_failed : Callback (String × GoError) Server
ws_pipeline_failed now (p, err) s = returned (
    broadcast now
      (record no_event {
        type = "pipeline_failed";
        pipeline = p;
        status = "failed";
        error = some err;
      })
      s)

unfoldable pub ws_step_started : Callback (String × String) Server
ws_step_started now (p, step) s = returned (
    broadcast now
      (record no_event { type = "step_started"; pipeline = p; step = step; status = "running" }) s)

unfoldable pub ws_step_completed : Callback (String × String × Result) Server
ws_step_completed now (p, step, result) s = returned (
    broadcast now
      (record no_event {
        type = "step_completed";
        pipeline = p;
        step = step;
        status = "completed";
        stdout = result.stdout;
        stderr = result.stderr;
      })
      s)

unfoldable pub ws_step_failed : Callback (String × String × GoError) Server
ws_step_failed now (p, step, err) s = returned (
    broadcast now
      (record no_event {
        type = "step_failed";
        pipeline = p;
        step = step;
        status = "failed";
        error = some err;
      })
      s)

-- HookEntry; `event` is its field On.
pub record HookEntry : Type 0 where
  pub event : String
  pub command : String
  pub timeout : ℕ

-- `go runHookCommand(cmd, timeout, vars…)`: the command is started, and runs on its own.
unfoldable pub start_command : HookEntry → List (String × Value) → Server → Server
start_command entry vars s =
    let timeout : ℕ = entry.timeout * 1000000000 % 2 ^ 64 in
    record s {
      commands =
          s.commands
          ++ record {
            command = entry.command;
            timeout = if timeout == 0 then 30000000000 else timeout;
            vars = vars;
          }
            ∷ [];
    }

-- The callbacks of RegisterConfiguredHooks
unfoldable pub run_on_pipeline : HookEntry → Callback String Server
run_on_pipeline entry now p s = returned (start_command entry (("LP_PIPELINE", text p) ∷ []) s)

unfoldable pub run_on_completed : HookEntry → Callback (String × List Result) Server
run_on_completed entry now (p, results) s =
    returned (start_command entry (("LP_PIPELINE", text p) ∷ []) s)

unfoldable pub run_on_failed : HookEntry → Callback (String × GoError) Server
run_on_failed entry now (p, err) s =
    returned (start_command entry (("LP_PIPELINE", text p) ∷ ("LP_ERROR", failure err) ∷ []) s)

unfoldable pub run_on_step : HookEntry → Callback (String × String) Server
run_on_step entry now (p, step) s =
    returned (start_command entry (("LP_PIPELINE", text p) ∷ ("LP_STEP", text step) ∷ []) s)

unfoldable pub run_on_step_completed : HookEntry → Callback (String × String × Result) Server
run_on_step_completed entry now (p, step, result) s =
    returned (start_command entry (("LP_PIPELINE", text p) ∷ ("LP_STEP", text step) ∷ []) s)

unfoldable pub run_on_step_failed : HookEntry → Callback (String × String × GoError) Server
run_on_step_failed entry now (p, step, err) s = returned (
    start_command entry
      (("LP_PIPELINE", text p) ∷ ("LP_STEP", text step) ∷ ("LP_ERROR", failure err) ∷ []) s)

-- The switch of RegisterConfiguredHooks; an entry with another event is skipped.
unfoldable pub register_entry : HookEntry → Hooks Server → Hooks Server
register_entry entry h =
    if lower_eq entry.event "pipeline_started"
    then on_pipeline_started (run_on_pipeline entry) h
    else if lower_eq entry.event "pipeline_completed"
    then on_pipeline_completed (run_on_completed entry) h
    else if lower_eq entry.event "pipeline_failed"
    then on_pipeline_failed (run_on_failed entry) h
    else if lower_eq entry.event "step_started"
    then on_step_started (run_on_step entry) h
    else if lower_eq entry.event "step_completed"
    then on_step_completed (run_on_step_completed entry) h
    else if lower_eq entry.event "step_failed"
    then on_step_failed (run_on_step_failed entry) h
    else h

-- RegisterConfiguredHooks
unfoldable pub register_configured_hooks : List HookEntry → Hooks Server → Hooks Server
unfolding register_entry
register_configured_hooks [] h = h
register_configured_hooks (e ∷ es) h = register_configured_hooks es (register_entry e h)

-- registerCLIHooks
unfoldable pub register_cli_hooks : Hooks Server → Hooks Server
register_cli_hooks h = set_panic_handler handle_panic (
    on_step_failed cli_step_failed (
      on_step_completed cli_step_completed (
        on_step_started cli_step_started (
          on_pipeline_failed cli_pipeline_failed (
            on_pipeline_completed cli_pipeline_completed
              (on_pipeline_started cli_pipeline_started h))))))

-- registerRunTracking
unfoldable pub register_run_tracking : Hooks Server → Hooks Server
register_run_tracking h = on_pipeline_failed Tracking.on_pipeline_failed (
    on_pipeline_completed Tracking.on_pipeline_completed (
      on_step_failed Tracking.on_step_failed (
        on_step_completed Tracking.on_step_completed (
          on_step_started Tracking.on_step_started
            (on_pipeline_started Tracking.on_pipeline_started h)))))

-- registerWSBroadcast
unfoldable pub register_ws_broadcast : Hooks Server → Hooks Server
register_ws_broadcast h = on_step_failed ws_step_failed (
    on_step_completed ws_step_completed (
      on_step_started ws_step_started (
        on_pipeline_failed ws_pipeline_failed (
          on_pipeline_completed ws_pipeline_completed
            (on_pipeline_started ws_pipeline_started h)))))

-- The pool that newServer and main build: its sink is set, and its hooks are registered.
unfoldable pub wired_pool : Config → List HookEntry → Pool Server
unfolding register_configured_hooks register_cli_hooks register_run_tracking register_ws_broadcast
wired_pool cfg entries =
    let pool : Pool Server = record (new_pool cfg) { event_sink = some [] } in
    record pool {
      hooks = register_ws_broadcast (
          register_run_tracking
            (register_cli_hooks (register_configured_hooks entries pool.hooks)));
    }
