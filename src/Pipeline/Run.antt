-- ===== src/Pipeline/Run.antt =====
-- internal/pipeline/run.go: a single execution of a pipeline. A method that takes the lock is one
-- step; `now` is what time.Now() returns in it.
use lp.Base.{
  ℕ, zero, suc, ◌-◌, String, List, [], ◌∷◌, Option, none, some, get_elem?, replicate, Bool, true,
  false,
}
use lp.Errors.{GoError}
use lp.Logging.{Ledger, Value, text, number, failure, cat_pipeline, cat_step}
use lp.Logging
use lp.Observability.Collector.{Collector, new_collector}
use lp.Runners.Step.{Result}

-- Status
pub data Status : Type 0 where
  pending running completed failed : Status

abbrev pub is_pending : Status → Bool
is_pending pending = true
is_pending _ = false

abbrev pub is_running : Status → Bool
is_running running = true
is_running _ = false

-- StepResult; an error is none where the source has "".
pub record StepResult : Type 0 where
  pub name : String
  pub status : Status
  pub output : Result
  pub error : Option GoError

-- A StepResult as NewRun makes it.
abbrev pub pending_step : StepResult
pending_step = record {
  name = "";
  status = pending;
  output = record { stdout = ""; stderr = "" };
  error = none;
}

-- Run
pub record Run : Type 0 where
  pub id : String
  pub pipeline_id : String
  pub status : Status
  pub started_at : Option ℕ
  pub finished_at : Option ℕ
  pub error : Option GoError
  pub steps : List StepResult
  pub ledger : Ledger
  pub collector : Collector (Unit {0})

-- NewRun, given the ID that newID returns
unfoldable pub new_run : String → String → ℕ → Run
unfolding Logging.new_ledger new_collector
new_run id pipeline_id step_count = record {
  id = id;
  pipeline_id = pipeline_id;
  status = pending;
  started_at = none;
  finished_at = none;
  error = none;
  steps = replicate step_count pending_step;
  ledger = Logging.new_ledger;
  collector = new_collector;
}

-- Start
unfoldable pub start : ℕ → Run → Run
start now r = record r {
  status = running;
  started_at = some now;
  ledger =
      Logging.info now cat_pipeline "run" "run started"
        (("run_id", text r.id) ∷ ("pipeline_id", text r.pipeline_id) ∷ []) r.ledger;
}

-- The guarded writes of the three step methods.
unfoldable pub mark_started : String → StepResult → StepResult
mark_started name s = record s { name = name; status = running }

unfoldable pub mark_completed : String → StepResult → StepResult
mark_completed output s = record s {
  status = completed;
  output = record s.output { stdout = output };
}

unfoldable pub mark_failed : String → GoError → StepResult → StepResult
mark_failed output err s = record s {
  status = failed;
  output = record s.output { stderr = output };
  error = some err;
}

-- `if index < len(r.Steps) { … r.Steps[index] … }`
unfoldable pub update_step : ℕ → (StepResult → StepResult) → List StepResult → List StepResult
update_step i f [] = []
update_step zero f (s ∷ ss) = f s ∷ ss
update_step (suc i) f (s ∷ ss) = s ∷ update_step i f ss

-- StartStep
unfoldable pub start_step : ℕ → ℕ → String → Run → Run
unfolding update_step mark_started
start_step now index name r = record r {
  steps = update_step index (mark_started name) r.steps;
  ledger =
      Logging.info now cat_step "run" "step started"
        (("run_id", text r.id) ∷ ("step", text name) ∷ ("index", number index) ∷ []) r.ledger;
}

-- CompleteStep and FailStep at an index in range, where the step is `s`
unfoldable pub write_completed : ℕ → ℕ → String → StepResult → Run → Run
unfolding update_step mark_completed
write_completed now index output s r = record r {
  steps = update_step index (mark_completed output) r.steps;
  ledger =
      Logging.info now cat_step "run" "step completed"
        (("run_id", text r.id) ∷ ("step", text s.name) ∷ ("index", number index) ∷ []) r.ledger;
}

unfoldable pub write_failed : ℕ → ℕ → String → GoError → StepResult → Run → Run
unfolding update_step mark_failed
write_failed now index output err s r = record r {
  steps = update_step index (mark_failed output err) r.steps;
  ledger =
      Logging.error now cat_step "run" "step failed"
        (("run_id", text r.id)
          ∷ ("step", text s.name)
          ∷ ("index", number index)
          ∷ ("error", failure err)
          ∷ [])
        r.ledger;
}

-- CompleteStep; none is the panic of `r.Steps[index].Name` at an index out of range, which leaves
-- the run as it was.
unfoldable pub complete_step : ℕ → ℕ → String → Run → Option Run
unfolding write_completed
complete_step now index output r = elim (get_elem? r.steps index) [
  | none ↦ none
  | some s ↦ some (write_completed now index output s r)
]

-- FailStep; none is the panic, as in CompleteStep.
unfoldable pub fail_step : ℕ → ℕ → String → GoError → Run → Option Run
unfolding write_failed
fail_step now index output err r = elim (get_elem? r.steps index) [
  | none ↦ none
  | some s ↦ some (write_failed now index output err s r)
]

-- Finish
unfoldable pub finish : ℕ → Option GoError → Run → Run
finish now none r = record r {
  finished_at = some now;
  status = completed;
  ledger =
      Logging.info now cat_pipeline "run" "run completed"
        (("run_id", text r.id) ∷ ("pipeline_id", text r.pipeline_id) ∷ []) r.ledger;
}
finish now (some err) r = record r {
  finished_at = some now;
  status = failed;
  error = some err;
  ledger =
      Logging.error now cat_pipeline "run" "run failed"
        (("run_id", text r.id) ∷ ("pipeline_id", text r.pipeline_id) ∷ ("error", failure err) ∷ [])
        r.ledger;
}

-- Duration. The source's difference is signed; the subtraction here stops at 0.
unfoldable pub duration : ℕ → Run → ℕ
duration now r = elim r.started_at [
  | none ↦ 0
  | some from ↦ elim r.finished_at [ none ↦ now - from | some to ↦ to - from ]
]
