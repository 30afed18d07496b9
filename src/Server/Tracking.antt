-- ===== src/Server/Tracking.antt =====
-- cmd/server/server.go, registerRunTracking: the callbacks that keep the Run records. Each loads the
-- run of the pipeline's name from `activeRuns` and calls a method of it.
use lp.Base.{ℕ, suc, String, Bool, List, [], ◌∷◌, Option, none, some, str_eq, ◌&&◌, if◌then◌else◌}
use lp.Base.Dict.{Dict}
use lp.Base.Dict
use lp.Errors.{GoError}
use lp.Pipeline.Run.{
  Run, StepResult, is_pending, is_running, start, start_step, complete_step, fail_step, finish,
}
use lp.Runners.Step.{Result}
use lp.Runners.Hooks.{Callback, returned, panicked}
use lp.Server.State.{Server, Tracked}

-- The index at which `for i, sr := range run.Steps { if test(sr) { … break } }` acts, from `i` on
unfoldable pub first_index : (StepResult → Bool) → ℕ → List StepResult → Option ℕ
first_index test i [] = none
first_index test i (s ∷ ss) =
    let later = first_index test (suc i) ss in if test s then some i else later

-- The run that activeRuns holds for a name, with its ID
unfoldable pub active_run : String → Tracked → Option (String × Run)
active_run name v = elim (Dict.get v.active_runs name) [
  | none ↦ none
  | some rid ↦ elim (Dict.get v.store.runs rid) [ none ↦ none | some r ↦ some (rid, r) ]
]

-- A change of the shared run
unfoldable pub save_run : String → Run → Tracked → Tracked
save_run rid r v = record v { store = record v.store { runs = Dict.put v.store.runs rid r } }

-- OnPipelineStarted
unfoldable pub track_pipeline_started : ℕ → String → Tracked → Tracked
unfolding active_run save_run
track_pipeline_started now name v = elim (active_run name v) [
  | none ↦ v
  | some (rid, r) ↦ save_run rid (start now r) v
]

-- OnStepStarted
unfoldable pub track_step_started : ℕ → String → String → Tracked → Tracked
unfolding active_run save_run first_index
track_step_started now name step v = elim (active_run name v) [
  | none ↦ v
  | some (rid, r) ↦ elim (first_index (λ s. is_pending s.status) 0 r.steps) [
    | none ↦ v
    | some i ↦ save_run rid (start_step now i step r) v
  ]
]

-- The test of OnStepCompleted and OnStepFailed
abbrev pub is_current : String → StepResult → Bool
is_current step s = str_eq s.name step && is_running s.status

-- OnStepCompleted; none is a panic.
unfoldable pub track_step_completed : ℕ → String → String → Result → Tracked → Option Tracked
unfolding active_run save_run first_index
track_step_completed now name step result v = elim (active_run name v) [
  | none ↦ some v
  | some (rid, r) ↦ elim (first_index (is_current step) 0 r.steps) [
    | none ↦ some v
    | some i ↦ elim (complete_step now i result.stdout r) [
      | none ↦ none
      | some r' ↦ some (save_run rid r' v)
    ]
  ]
]

-- OnStepFailed; none is a panic.
unfoldable pub track_step_failed : ℕ → String → String → GoError → Tracked → Option Tracked
unfolding active_run save_run first_index
track_step_failed now name step err v = elim (active_run name v) [
  | none ↦ some v
  | some (rid, r) ↦ elim (first_index (is_current step) 0 r.steps) [
    | none ↦ some v
    | some i ↦ elim (fail_step now i "" err r) [ none ↦ none | some r' ↦ some (save_run rid r' v) ]
  ]
]

-- OnPipelineCompleted and OnPipelineFailed: Finish, and the name leaves activeRuns.
unfoldable pub track_finish : ℕ → String → Option GoError → Tracked → Tracked
unfolding active_run save_run
track_finish now name err v = elim (active_run name v) [
  | none ↦ v
  | some (rid, r) ↦
      let saved : Tracked = save_run rid (finish now err r) v in
      record saved { active_runs = Dict.delete v.active_runs name }
]

-- The callbacks
unfoldable pub on_pipeline_started : Callback String Server
on_pipeline_started now name s =
    returned (record s { tracked = track_pipeline_started now name s.tracked })

unfoldable pub on_step_started : Callback (String × String) Server
on_step_started now (name, step) s =
    returned (record s { tracked = track_step_started now name step s.tracked })

unfoldable pub on_step_completed : Callback (String × String × Result) Server
on_step_completed now (name, step, result) s =
    elim (track_step_completed now name step result s.tracked) [
      | none ↦ panicked "index out of range" s
      | some v ↦ returned (record s { tracked = v })
    ]

unfoldable pub on_step_failed : Callback (String × String × GoError) Server
on_step_failed now (name, step, err) s = elim (track_step_failed now name step err s.tracked) [
  | none ↦ panicked "index out of range" s
  | some v ↦ returned (record s { tracked = v })
]

unfoldable pub on_pipeline_completed : Callback (String × List Result) Server
on_pipeline_completed now (name, results) s =
    returned (record s { tracked = track_finish now name none s.tracked })

unfoldable pub on_pipeline_failed : Callback (String × GoError) Server
on_pipeline_failed now (name, err) s =
    returned (record s { tracked = track_finish now name (some err) s.tracked })
