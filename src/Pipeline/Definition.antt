-- ===== src/Pipeline/Definition.antt =====
-- internal/pipeline/step.go and pipeline.go: the declarative definitions and their conversion for
-- the runners. The ID that NewPipeline generates is an argument.
use lp.Base.{String, List, [], map}
use lp.Runners.Step.{Step, EmitDef, Pipeline, new_pipeline}

-- EmitDef
pub record EmitDecl : Type 0 where
  pub event : String
  pub pipeline : String

-- StepDef
pub record StepDef : Type 0 where
  pub name : String
  pub command : String
  pub args : List String
  pub dir : String
  pub env : List String
  pub emit : List EmitDecl

-- Pipeline
pub record PipelineDef : Type 0 where
  pub id : String
  pub name : String
  pub steps : List StepDef
  pub emit : List EmitDecl

-- NewPipeline
unfoldable pub new_pipeline_def : String → String → List StepDef → PipelineDef
new_pipeline_def id name steps = record { id = id; name = name; steps = steps; emit = [] }

-- One round of the loops that convert emit declarations.
abbrev pub to_runner_emit : EmitDecl → EmitDef
to_runner_emit e = record { event = e.event; pipeline = e.pipeline }

-- toRunnerStep
unfoldable pub to_runner_step : StepDef → Step
to_runner_step d = record {
  name = d.name;
  command = d.command;
  args = d.args;
  dir = d.dir;
  env = d.env;
  emit = map to_runner_emit d.emit;
}

-- ToRunnersPipeline
unfoldable pub to_runners_pipeline : PipelineDef → Pipeline
unfolding to_runner_step new_pipeline
to_runners_pipeline p =
    let rp : Pipeline = new_pipeline p.name (map to_runner_step p.steps) in
    record rp { emit = map to_runner_emit p.emit }
