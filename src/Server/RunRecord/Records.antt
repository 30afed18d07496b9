-- ===== src/Server/RunRecord/Records.antt =====
-- internal/runners/pool.go, run: what the commands of a pipeline do, told without the hooks.
use lp.Base.{ℕ, suc, String, List, [], ◌∷◌, Option, none, some, length, replicate}
use lp.Errors.{GoError, step_error}
use lp.Pipeline.Run.{StepResult, pending_step, completed, failed}
use lp.Runners.Step.{Step, Result, Context, Os, execute}

-- The record of a step whose command has ended well or badly.
abbrev pub completed_record : String → Result → StepResult
completed_record name result = record {
  name = name;
  status = completed;
  output = record { stdout = result.stdout; stderr = "" };
  error = none;
}

abbrev pub failed_record : String → GoError → StepResult
failed_record name err = record {
  name = name;
  status = failed;
  output = record { stdout = ""; stderr = "" };
  error = some err;
}

module _ {O : Type 0} (os : Os O) (ctx : Context) (name : String) where
  -- What the run of the steps should leave, told by the commands alone: one completed record for
  -- each command that ends well, a failed one for the first that does not, and the others pending.
  unfoldable pub step_records : ℕ → List Step → O → List StepResult
  step_records i [] o = []
  step_records i (step ∷ steps) o =
      let ((result, err), o') = execute os ctx step o in
      elim err [
        | none ↦ completed_record step.name result ∷ step_records (suc i) steps o'
        | some e ↦
            failed_record step.name (step_error name i step.name e)
            ∷ replicate (length steps) pending_step
      ]

  -- The error of the first command that fails.
  unfoldable pub first_error : ℕ → List Step → O → Option GoError
  first_error i [] o = none
  first_error i (step ∷ steps) o =
      let ((result, err), o') = execute os ctx step o in
      elim err [
        | none ↦ first_error (suc i) steps o'
        | some e ↦ some (step_error name i step.name e)
      ]
