-- ===== src/Server/Commands.antt =====
-- cmd/server/events.go, runHookCommand: a configured hook's command, run on its own.
use lp.Base.{String, List, [], ◌∷◌, ◌++◌, map, Option, none, some, ◌<>◌, fields}
use lp.Errors.{GoError}
use lp.Logging.{Value, text, number, texts, failure}
use lp.Runners.Step.{Cmd, Context, Os}
use lp.Runners.Pool.{with_timeout}
use lp.Server.State.{HookCommand}

-- "LP_ERROR="+err.Error() and the like; `message` is err.Error(). No variable has another value.
unfoldable pub variable : (GoError → String) → String × Value → String
variable message (name, text s) = name <> ("=" <> s)
variable message (name, failure e) = name <> ("=" <> message e)
variable message (name, number n) = name <> "="
variable message (name, texts ss) = name <> "="

module _ {O : Type 0} (os : Os O) where
  -- The command that runHookCommand configures, none for a blank one
  unfoldable pub hook_command : List String → List String → O → Option Cmd
  hook_command [] vars o = none
  hook_command (program ∷ args) vars o =
      let bare : Cmd = record { path = program; args = args; dir = ""; env = none } in
      some (record bare { env = some (os.environ bare o ++ vars) })

  -- runHookCommand: what the command prints and its error are dropped.
  unfoldable pub run_hook_command : (GoError → String) → HookCommand → O → O
  unfolding variable hook_command with_timeout
  run_hook_command message h o =
      let ctx : Context = with_timeout (os.now o) h.timeout (record { deadline = none }) in
      elim (hook_command (fields h.command) (map (variable message) h.vars) o) [
        | none ↦ o
        | some cmd ↦ (os.run ctx cmd o).1
      ]
