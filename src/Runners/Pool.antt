-- ===== src/Runners/Pool.antt =====
-- internal/runners/pool.go.
use lp.Base.{ℕ, suc, ◌+◌, String, List, [], ◌∷◌, ◌++◌, map, Option, none, some, leb, if◌then◌else◌}
use lp.Errors.{GoError, step_error}
use lp.Runners.Step.{Step, Pipeline, EmitDef, Result, Config, Context, Os, execute}
use lp.Runners.Hooks.{
  Hooks, new_hooks, emit_pipeline_started, emit_pipeline_completed, emit_pipeline_failed,
  emit_step_started, emit_step_completed, emit_step_failed,
}

-- Event
pub record Event : Type 0 where
  pub source : String
  pub trigger : String
  pub pipeline : String

-- Pool. `sem` is the number of tokens in the semaphore channel, `wg` the counter of the wait group,
-- `event_sink` what was sent on the sink so far, none for a nil channel.
pub record Pool (W : Type 0) : Type 0 where
  pub cfg : Config
  pub sem : ℕ
  pub wg : ℕ
  pub hooks : Hooks W
  pub event_sink : Option (List Event)

-- NewPool
unfoldable pub new_pool : {W : Type 0} → Config → Pool W
unfolding new_hooks
new_pool cfg = record { cfg = cfg; sem = 0; wg = 0; hooks = new_hooks; event_sink = none }

-- What a run acts on: the pool, the state of the callbacks, and the operating system.
pub record Machine (W O : Type 0) : Type 0 where
  pub pool : Pool W
  pub world : W
  pub os : O

-- How the loop over the steps ends.
pub data Finish : Type 0 where
  finished : List Result → Finish
  stopped : GoError → Finish

-- context.WithTimeout: the parent's deadline stays if it is earlier.
unfoldable pub with_timeout : ℕ → ℕ → Context → Context
with_timeout now timeout ctx = elim ctx.deadline [
  | none ↦ record { deadline = some (now + timeout) }
  | some d ↦ record { deadline = some (if leb d (now + timeout) then d else now + timeout) }
]

-- emitEvents
unfoldable pub emit_events : {W O : Type 0} → String → List EmitDef → Machine W O → Machine W O
emit_events source defs m = elim m.pool.event_sink [
  | none ↦ m
  | some sent ↦ record m {
    pool = record m.pool {
      event_sink = some (
          sent
          ++ map (λ d. record { source = source; trigger = d.event; pipeline = d.pipeline }) defs);
    };
  }
]

module _ {W O : Type 0} (os : Os O) where
  -- A hook is emitted at the time that the system shows.
  unfoldable pub notify : (ℕ → Hooks W → W → Hooks W × W) → Machine W O → Machine W O
  notify emit m =
      let (h, w) = emit (os.now m.os) m.pool.hooks m.world in
      record m { pool = record m.pool { hooks = h }; world = w }

  -- What follows a failed step: the two hooks.
  unfoldable pub fail_step : String → String → GoError → Machine W O → Machine W O
  unfolding notify
  fail_step pipeline step err m =
      notify (λ now. emit_pipeline_failed now pipeline err)
        (notify (λ now. emit_step_failed now pipeline step err) m)

  -- What follows a completed step: the hook and the step's events.
  unfoldable pub complete_step : String → Step → Result → Machine W O → Machine W O
  unfolding notify emit_events
  complete_step pipeline step result m =
      emit_events pipeline step.emit
        (notify (λ now. emit_step_completed now pipeline step.name result) m)

  -- The loop of Pool.run, from step `i` on.
  unfoldable pub run_steps :
      Context → String → ℕ → List Step → List Result → Machine W O → Finish × Machine W O
  unfolding notify fail_step complete_step
  run_steps ctx pipeline i [] results m = (finished results, m)
  run_steps ctx pipeline i (step ∷ steps) results m =
      let started : Machine W O = notify (λ now. emit_step_started now pipeline step.name) m in
      let ((result, err), o) = execute os ctx step started.os in
      let executed : Machine W O = record started { os = o } in
      elim err [
        | some e ↦
            let wrapped : GoError = step_error pipeline i step.name e in
            (stopped wrapped, fail_step pipeline step.name wrapped executed)
        | none ↦
            run_steps ctx pipeline (suc i) steps (results ++ result ∷ [])
              (complete_step pipeline step result executed)
      ]

  -- What follows the loop.
  unfoldable pub finish_run : Pipeline → Finish × Machine W O → Option GoError × Machine W O
  unfolding notify emit_events
  finish_run pipeline (stopped err, m) = (some err, m)
  finish_run pipeline (finished results, m) = (
    none,
    emit_events pipeline.name pipeline.emit
        (notify (λ now. emit_pipeline_completed now pipeline.name results) m),
  )

  -- Pool.run
  unfoldable pub run : Context → Pipeline → Machine W O → Option GoError × Machine W O
  unfolding notify run_steps finish_run with_timeout
  run parent pipeline m =
      let ctx : Context = with_timeout (os.now m.os) m.pool.cfg.timeout parent in
      let started : Machine W O = notify (λ now. emit_pipeline_started now pipeline.name) m in
      finish_run pipeline (run_steps ctx pipeline.name 0 pipeline.steps [] started)
