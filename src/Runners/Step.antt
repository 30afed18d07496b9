-- ===== src/Runners/Step.antt =====
-- internal/runners/step.go, pipeline.go, config.go. The operating system is a parameter: it tells the
-- time, the environment of a command, and what a command that runs to its end or to its
-- deadline has printed.
use lp.Base.{ℕ, String, List, [], ◌∷◌, ◌++◌, Option, none, some, ◌<>◌, is_empty, join, trim_space}
use lp.Errors.{GoError, command_failed}

-- EmitDef
pub record EmitDef : Type 0 where
  pub event : String
  pub pipeline : String

-- Step
pub record Step : Type 0 where
  pub name : String
  pub command : String
  pub args : List String
  pub dir : String
  pub env : List String
  pub emit : List EmitDef

-- Result
pub record Result : Type 0 where
  pub stdout : String
  pub stderr : String

-- Pipeline
pub record Pipeline : Type 0 where
  pub name : String
  pub steps : List Step
  pub emit : List EmitDef

-- NewPipeline
unfoldable pub new_pipeline : String → List Step → Pipeline
new_pipeline name steps = record { name = name; steps = steps; emit = [] }

-- Config
pub record Config : Type 0 where
  pub timeout : ℕ
  pub max_concurrent : ℕ

-- context.Context, as far as the runners use it: the time at which it is done.
pub record Context : Type 0 where
  pub deadline : Option ℕ

-- exec.Cmd: the program, its arguments, Dir ("" if unset) and Env (none if nil).
pub record Cmd : Type 0 where
  pub path : String
  pub args : List String
  pub dir : String
  pub env : Option (List String)

-- What cmd.Run() returns and what it has written to the two buffers.
pub record CmdOutput : Type 0 where
  pub err : Option String
  pub stdout : String
  pub stderr : String

-- The operating system, in a state `O`.
pub record Os (O : Type 0) : Type 0 where
  pub now : O → ℕ
  pub environ : Cmd → O → List String
  pub run : Context → Cmd → O → CmdOutput × O

-- `fullCommand` of Execute
unfoldable pub full_command : Step → String
full_command s = elim s.args [ [] ↦ s.command | a ∷ rest ↦ s.command <> " " <> join " " (a ∷ rest) ]

-- The command that Execute configures.
unfoldable pub shell_command : {O : Type 0} → Os O → Step → O → Cmd
unfolding full_command is_empty
shell_command os s o =
    let bare : Cmd = record {
      path = "sh";
      args = "-c" ∷ full_command s ∷ [];
      dir = s.dir;
      env = none;
    } in
    elim s.env [
      | [] ↦ bare
      | e ∷ rest ↦ record bare { env = some (os.environ bare o ++ (e ∷ rest)) }
    ]

-- The result and the error of Execute.
unfoldable pub read_output : CmdOutput → Result × Option GoError
read_output out =
    let result : Result = record {
      stdout = trim_space out.stdout;
      stderr = trim_space out.stderr;
    } in
    elim out.err [
      | none ↦ (result, none)
      | some text ↦ (result, some (command_failed text (trim_space out.stderr)))
    ]

-- Execute
unfoldable pub execute : {O : Type 0} → Os O → Context → Step → O → (Result × Option GoError) × O
unfolding shell_command read_output
execute os ctx s o = let (out, o') = os.run ctx (shell_command os s o) o in (read_output out, o')
