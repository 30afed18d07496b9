-- ===== src/Server/State.antt =====
-- cmd/server/server.go: the state that the hooks of the server act on, and the callbacks of
-- registerCLIHooks.
-- cmd/server/cli.go: a printed line is kept as its format and operands. The logger of the server
-- writes to io.Discard, so its calls are left out. The counters of the pool are in the pool.
use lp.Base.{ℕ, String, List, [], ◌∷◌, ◌++◌, Option, length, is_empty, split, if◌then◌else◌}
use lp.Base.Dict.{Dict}
use lp.Errors.{GoError}
use lp.Logging.{Ledger, Value, text, number, failure, cat_pipeline, cat_step, cat_hook}
use lp.Logging.Scoped.{new_scoped, scoped_info, scoped_error}
use lp.Pipeline.Store.{Store}
use lp.Runners.Step.{Result}
use lp.Runners.Hooks.{Callback, returned}

-- The prefix of a printed line
pub data Prefix : Type 0 where
  prefix_info prefix_ok prefix_fail prefix_event prefix_run prefix_out : Prefix

-- A call of cli.log
pub record Line : Type 0 where
  pub prefix : Prefix
  pub format : String
  pub args : List Value

-- wsEvent; the Data field is never set.
pub record WsEvent : Type 0 where
  pub type : String
  pub time : ℕ
  pub pipeline : String
  pub step : String
  pub status : String
  pub error : Option GoError
  pub stdout : String
  pub stderr : String
  pub steps : ℕ

-- A started hook command: the command, its timeout, a time.Duration in nanoseconds, and its variables.
pub record HookCommand : Type 0 where
  pub command : String
  pub timeout : ℕ
  pub vars : List (String × Value)

-- The part of the state that run tracking owns: `store` and `activeRuns`, from pipeline names to
-- runs, by their IDs.
pub record Tracked : Type 0 where
  pub store : Store
  pub active_runs : Dict String

-- server: its shared state. `output`, `broadcasts` and `commands` are what was printed, handed
-- to wsHub.broadcast, and started by configured hooks.
pub record Server : Type 0 where
  pub tracked : Tracked
  pub ledger : Ledger
  pub output : List Line
  pub broadcasts : List WsEvent
  pub commands : List HookCommand

-- cli.log
unfoldable pub print : Prefix → String → List Value → Server → Server
print prefix format args s = record s {
  output = s.output ++ record { prefix = prefix; format = format; args = args } ∷ [];
}

-- The loop of cli.output
unfoldable pub print_lines : String → List String → Server → Server
unfolding is_empty
print_lines stream [] s = s
print_lines stream (line ∷ lines) s =
    print_lines stream lines
      (if is_empty line then s else print prefix_out "%s: %s" (text stream ∷ text line ∷ []) s)

-- cli.output
unfoldable pub print_output : String → String → Server → Server
unfolding print_lines
print_output stream out s = print_lines stream (split b'\n' out) s

-- The write of a scoped logger to the server's ledger
unfoldable pub note : (Ledger → Ledger) → Server → Server
note write s = record s { ledger = write s.ledger }

-- The six callbacks of registerCLIHooks
unfoldable pub cli_pipeline_started : Callback String Server
cli_pipeline_started now pipeline s = returned (
    note
      (scoped_info now (new_scoped cat_pipeline "runners") "pipeline started"
        (("pipeline", text pipeline) ∷ []))
      (print prefix_run "pipeline %s started" (text pipeline ∷ []) s))

unfoldable pub cli_pipeline_completed : Callback (String × List Result) Server
cli_pipeline_completed now (pipeline, results) s = returned (
    note
      (scoped_info now (new_scoped cat_pipeline "runners") "pipeline completed"
        (("pipeline", text pipeline) ∷ []))
      (print prefix_ok "pipeline %s completed (%d steps)"
        (text pipeline ∷ number (length results) ∷ []) s))

unfoldable pub cli_pipeline_failed : Callback (String × GoError) Server
cli_pipeline_failed now (pipeline, err) s = returned (
    note
      (scoped_error now (new_scoped cat_pipeline "runners") "pipeline failed"
        (("pipeline", text pipeline) ∷ ("error", failure err) ∷ []))
      (print prefix_fail "pipeline %s: %v" (text pipeline ∷ failure err ∷ []) s))

unfoldable pub cli_step_started : Callback (String × String) Server
cli_step_started now (pipeline, step) s = returned (
    note
      (scoped_info now (new_scoped cat_step "runners") "step started"
        (("pipeline", text pipeline) ∷ ("step", text step) ∷ []))
      (print prefix_run "step %s/%s started" (text pipeline ∷ text step ∷ []) s))

unfoldable pub cli_step_completed : Callback (String × String × Result) Server
cli_step_completed now (pipeline, step, result) s =
    let printed : Server =
      print prefix_ok "step %s/%s completed" (text pipeline ∷ text step ∷ []) s in
    let with_stdout : Server =
      if is_empty result.stdout then printed else print_output "stdout" result.stdout printed in
    let with_stderr : Server =
      if is_empty result.stderr
      then with_stdout
      else print_output "stderr" result.stderr with_stdout in
    returned (
      note
        (scoped_info now (new_scoped cat_step "runners") "step completed"
          (("pipeline", text pipeline) ∷ ("step", text step) ∷ []))
        with_stderr)

unfoldable pub cli_step_failed : Callback (String × String × GoError) Server
cli_step_failed now (pipeline, step, err) s = returned (
    note
      (scoped_error now (new_scoped cat_step "runners") "step failed"
        (("pipeline", text pipeline) ∷ ("step", text step) ∷ ("error", failure err) ∷ []))
      (print prefix_fail "step %s/%s: %v" (text pipeline ∷ text step ∷ failure err ∷ []) s))

-- The panic handler
unfoldable pub handle_panic : ℕ → String → String → Server → Server
handle_panic now name recovered s =
    note
      (scoped_error now (new_scoped cat_hook "runners") "hook panic"
        (("hook", text name) ∷ ("recovered", text recovered) ∷ []))
      (print prefix_fail "hook %s panicked: %v" (text name ∷ text recovered ∷ []) s)
