-- ===== src/Server/Service.antt =====
-- cmd/server/api.go, start and stop, and cmd/server/server.go, what run does in front of the listener
-- manager's Start and behind Wait. The http.Server is a parameter: what ListenAndServe returns, and what
-- Shutdown does under a context, in a state `H`.
use lp.Base.{ℕ, String, List, [], ◌∷◌, Option, none, is_empty, if◌then◌else◌}
use lp.Errors.{GoError}
use lp.Logging.{text, failure, cat_server}
use lp.Logging
use lp.Observability.Collector.{Snapshot}
use lp.Runners.Step.{Context}
use lp.Runners.Pool.{with_timeout}
use lp.Server.Cli
use lp.Server.Loops.{print_stats}
use lp.Server.State.{Server}

-- What ListenAndServe returns: http.ErrServerClosed, or another error
pub data ListenEnd : Type 0 where
  server_closed : ListenEnd
  listen_failed : GoError → ListenEnd

-- start
unfoldable pub start_api : String → Server → Server
start_api addr s = Cli.info "api listening on %s" (text addr ∷ []) s

-- The goroutine of start, when ListenAndServe has returned
unfoldable pub api_ended : ListenEnd → Server → Server
api_ended server_closed s = s
api_ended (listen_failed e) s = Cli.fail "api server error: %v" (failure e ∷ []) s

-- stop; Shutdown's error is dropped.
unfoldable pub stop_api : {H : Type 0} → (Context → H → Option GoError × H) → ℕ → H → H
unfolding with_timeout
stop_api shutdown now h =
    let ctx : Context = with_timeout now 5000000000 (record { deadline = none }) in
    (shutdown ctx h).1

-- run, from the start of the goroutines to mgr.Start
unfoldable pub enter_run : ℕ → String → Server → Server
unfolding start_api
enter_run now addr s =
    let listening : Server = if is_empty addr then s else start_api addr s in
    let logged : Server = record listening {
      ledger = Logging.info now cat_server "server" "server started" [] listening.ledger;
    } in
    Cli.info "server started" [] logged

-- run, behind Wait and the stop of the API, given the snapshots that the collector shows
unfoldable pub leave_run : ℕ → List (Snapshot × List (String × ℕ)) → Server → Server
leave_run now stats s =
    let logged : Server = record s {
      ledger = Logging.info now cat_server "server" "server stopped" [] s.ledger;
    } in
    print_stats stats (Cli.info "server stopped" [] logged)
