-- ===== src/Logging.antt =====
-- internal/logging/ledger.go: the append-only log. A method that takes the lock is one step on the
-- ledger; `now` is what time.Now() returns, with 0 for the zero time.
pub mod Queries
pub mod Scoped
mod Tests
use lp.Base.{
  ℕ, zero, suc, Bool, String, List, [], ◌∷◌, ◌++◌, Option, none, some, leb, ◌==◌, str_eq, keep_if,
  length, if◌then◌else◌,
}
use lp.Base.Dict.{Dict}
use lp.Errors.{GoError}
use lp.Base.Dict

-- Level: an int, by `iota`
abbrev pub Level : Type 0
Level = ℕ

abbrev pub level_debug : Level
level_debug = 0

abbrev pub level_info : Level
level_info = 1

abbrev pub level_warn : Level
level_warn = 2

abbrev pub level_error : Level
level_error = 3

-- Level.String
unfoldable pub level_string : Level → String
level_string l =
    if l == level_debug
    then "DEBUG"
    else if l == level_info
    then "INFO"
    else if l == level_warn
    then "WARN"
    else if l == level_error
    then "ERROR"
    else "UNKNOWN"

-- Category: a string
abbrev pub cat_pipeline : String
cat_pipeline = "pipeline"

abbrev pub cat_step : String
cat_step = "step"

abbrev pub cat_hook : String
cat_hook = "hook"

abbrev pub cat_config : String
cat_config = "config"

abbrev pub cat_server : String
cat_server = "server"

-- The values that the program puts into `map[string]any`.
pub data Value : Type 0 where
  text : String → Value
  number : ℕ → Value
  texts : List String → Value
  failure : GoError → Value

abbrev pub Fields : Type 0
Fields = List (String × Value)

-- Entry
pub record Entry : Type 0 where
  pub time : ℕ
  pub level : Level
  pub category : String
  pub source : String
  pub message : String
  pub fields : Fields

-- Ledger
pub record Ledger : Type 0 where
  pub entries : List Entry

-- NewLedger
unfoldable pub new_ledger : Ledger
new_ledger = record { entries = [] }

-- Append
unfoldable pub append : ℕ → Entry → Ledger → Ledger
append now e l =
    let stamped : Entry = if e.time == 0 then record e { time = now } else e in
    record l { entries = l.entries ++ stamped ∷ [] }

-- Log
unfoldable pub log : ℕ → Level → String → String → String → Fields → Ledger → Ledger
unfolding append
log now level category source message fields = append now (record {
  time = now;
  level = level;
  category = category;
  source = source;
  message = message;
  fields = fields;
})

-- Info
unfoldable pub info : ℕ → String → String → String → Fields → Ledger → Ledger
unfolding log
info now category source message fields = log now level_info category source message fields

-- Error
unfoldable pub error : ℕ → String → String → String → Fields → Ledger → Ledger
unfolding log
error now category source message fields = log now level_error category source message fields

-- Warn
unfoldable pub warn : ℕ → String → String → String → Fields → Ledger → Ledger
unfolding log
warn now category source message fields = log now level_warn category source message fields

-- Debug
unfoldable pub debug : ℕ → String → String → String → Fields → Ledger → Ledger
unfolding log
debug now category source message fields = log now level_debug category source message fields

-- All
unfoldable pub all : Ledger → List Entry
all l = l.entries

-- ByCategory
unfoldable pub by_category : String → Ledger → List Entry
by_category cat l = keep_if (λ e. str_eq e.category cat) l.entries

-- ByLevel
unfoldable pub by_level : Level → Ledger → List Entry
by_level min l = keep_if (λ e. leb min e.level) l.entries

-- BySource
unfoldable pub by_source : String → Ledger → List Entry
by_source source l = keep_if (λ e. str_eq e.source source) l.entries

-- groups[k], which is nil for a missing key
abbrev pub group_of : Option (List Entry) → List Entry
group_of none = []
group_of (some es) = es

-- The loop of Grouped, over the entries that are left.
unfoldable pub group_entries : List Entry → Dict (List Entry) → Dict (List Entry)
group_entries [] groups = groups
group_entries (e ∷ es) groups =
    group_entries es (Dict.put groups e.category (group_of (Dict.get groups e.category) ++ e ∷ []))

-- Grouped
unfoldable pub grouped : Ledger → Dict (List Entry)
unfolding group_entries
grouped l = group_entries l.entries Dict.empty

-- Len
unfoldable pub len : Ledger → ℕ
len l = length l.entries

-- Clear
unfoldable pub clear : Ledger → Ledger
clear l = record l { entries = [] }
