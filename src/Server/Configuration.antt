-- ===== src/Server/Configuration.antt =====
-- cmd/server/configuration.go, and loadConfiguration of main.go. The YAML decoder and the file system
-- are parameters. An int is a 64-bit word, by its bit pattern.
use lp.Base.{ℕ, ◌*◌, ◌%◌, ◌^◌, String, List, [], ◌∷◌, Option}
use lp.Base.Dict.{Dict}
use lp.Errors.{usage, reading_configuration, parsing_configuration}
use lp.Pipeline.Store.{Fallible, ok, err}
use lp.Runners.Step.{Config}
use lp.Server.Wiring.{HookEntry}

-- The values that the decoder puts into `map[string]any`: a text, an int, a float64 (by the integer
-- that it is cut to), a list of items (the texts among them), and others.
pub data ConfigValue : Type 0 where
  string : String → ConfigValue
  int float64 : ℕ → ConfigValue
  items : List (Option String) → ConfigValue
  strings : List String → ConfigValue
  other : ConfigValue

-- ListenerEntry
pub record ListenerEntry : Type 0 where
  pub type : String
  pub name : String
  pub pipeline : String
  pub config : Dict ConfigValue

-- The field Runners of Configuration
pub record RunnersSection : Type 0 where
  pub timeout : ℕ
  pub max_concurrent : ℕ
  pub hooks : List HookEntry

-- Configuration; `directories` is the field of its Pipelines.
pub record Configuration : Type 0 where
  pub api_addr : String
  pub runners : RunnersSection
  pub directories : List String
  pub listeners : List ListenerEntry

-- time.Duration(n) * time.Second
unfoldable pub seconds : ℕ → ℕ
seconds n = n * 1000000000 % 2 ^ 64

-- RunnersConfig
unfoldable pub runners_config : Configuration → Config
unfolding seconds
runners_config c = record {
  timeout = seconds c.runners.timeout;
  max_concurrent = c.runners.max_concurrent;
}

-- loadConfiguration: the arguments of the program, os.ReadFile and yaml.Unmarshal
unfoldable pub load_configuration :
    List String
    → (String → Fallible String)
    → (String → Fallible Configuration)
    → Fallible Configuration
load_configuration [] read_file decode = err usage
load_configuration (program ∷ []) read_file decode = err usage
load_configuration (program ∷ path ∷ rest) read_file decode = elim (read_file path) [
  | err e ↦ err (reading_configuration e)
  | ok content ↦ elim (decode content) [ err e ↦ err (parsing_configuration e) | ok cfg ↦ ok cfg ]
]
