-- ===== src/Server/Api/Json.antt =====
-- cmd/server/api.go: the requests and answers, and the values that are encoded as JSON. `omitempty`
-- fields keep their empty values here.
use lp.Base.{ℕ, String, List, Option, none, some, ltb, map, if◌then◌else◌}
use lp.Base.Dict.{Dict}
use lp.Errors.{GoError}
use lp.Logging.{Entry, Fields, level_string}
use lp.Pipeline.Definition.{PipelineDef, StepDef}
use lp.Pipeline.Run.{Run, Status, pending, running, completed, failed, StepResult, duration}
use lp.Server.Configuration.{ListenerEntry, ConfigValue}

-- http.Request; `query` is r.URL.Query().Get, "" for a missing key.
pub record ApiRequest : Type 0 where
  pub method : String
  pub path : String
  pub query : String → String

-- One element of "stats" in handleStatus
pub record StatJson : Type 0 where
  pub component : String
  pub hook : String
  pub listeners : ℕ
  pub emit_count : ℕ
  pub panics_caught : ℕ

-- entryJSON
pub record EntryJson : Type 0 where
  pub time : ℕ
  pub level : String
  pub category : String
  pub source : String
  pub message : String
  pub fields : Fields

-- stepJSON and pipelineJSON
pub record StepJson : Type 0 where
  pub name : String
  pub command : String

pub record PipelineJson : Type 0 where
  pub id : String
  pub name : String
  pub steps : List StepJson

-- stepResultJSON and runJSON; a duration is none where the field stays empty.
pub record StepResultJson : Type 0 where
  pub name : String
  pub status : String
  pub stdout : String
  pub stderr : String
  pub error : Option GoError

pub record RunJson : Type 0 where
  pub id : String
  pub pipeline_id : String
  pub status : String
  pub started_at : Option ℕ
  pub finished_at : Option ℕ
  pub duration : Option ℕ
  pub error : Option GoError
  pub steps : List StepResultJson

-- listenerJSON
pub record ListenerJson : Type 0 where
  pub name : String
  pub type : String
  pub pipeline : String
  pub config : Dict ConfigValue

-- What is written: a text by http.Error or http.NotFound, the dashboard, or a JSON value.
pub data ApiBody : Type 0 where
  plain : String → ApiBody
  dashboard : ApiBody
  -- "pipelines", the two fields of "config", "stats"
  server_status : List String → ℕ → ℕ → List StatJson → ApiBody
  history : ℕ → List EntryJson → ApiBody
  all_pipelines : List PipelineJson → ApiBody
  error_json : GoError → ApiBody
  pipeline_runs : String → ℕ → List RunJson → ApiBody
  all_listeners : List ListenerJson → ApiBody

pub record ApiAnswer : Type 0 where
  pub status : ℕ
  pub body : ApiBody

unfoldable pub entry_json : Entry → EntryJson
unfolding level_string
entry_json e = record {
  time = e.time;
  level = level_string e.level;
  category = e.category;
  source = e.source;
  message = e.message;
  fields = e.fields;
}

unfoldable pub step_json : StepDef → StepJson
step_json s = record { name = s.name; command = s.command }

unfoldable pub pipeline_json : PipelineDef → PipelineJson
unfolding step_json
pipeline_json p = record { id = p.id; name = p.name; steps = map step_json p.steps }

-- string(run.Status)
unfoldable pub status_string : Status → String
status_string pending = "pending"
status_string running = "running"
status_string completed = "completed"
status_string failed = "failed"

unfoldable pub step_result_json : StepResult → StepResultJson
unfolding status_string
step_result_json s = record {
  name = s.name;
  status = status_string s.status;
  stdout = s.output.stdout;
  stderr = s.output.stderr;
  error = s.error;
}

-- One round of the loop over the runs
unfoldable pub run_json : ℕ → Run → RunJson
unfolding step_result_json status_string duration
run_json now r = record {
  id = r.id;
  pipeline_id = r.pipeline_id;
  status = status_string r.status;
  started_at = r.started_at;
  finished_at = r.finished_at;
  duration = if ltb 0 (duration now r) then some (duration now r) else none;
  error = r.error;
  steps = map step_result_json r.steps;
}

unfoldable pub listener_json : ListenerEntry → ListenerJson
listener_json e = record { name = e.name; type = e.type; pipeline = e.pipeline; config = e.config }
