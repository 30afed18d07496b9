-- ===== src/Logging/Tests.antt =====
-- The theorems about the ledger at concrete inputs.
use lp.Base.{keep_if, [], ◌∷◌, ◌++◌, ◌≡◌, refl, str_eq, leb, if◌then◌else◌}
use lp.Base.Dict
use lp.Logging.{
  Entry, Ledger, text, group_of, grouped, by_category, by_level, by_source, log, level_info,
  level_error, level_warn,
}
use lp.Logging.Queries.{get-grouped, log_queries}

abbrev started : Entry
started = record {
  time = 5;
  level = level_info;
  category = "step";
  source = "runners";
  message = "step started";
  fields = ("step", text "test") ∷ [];
}

abbrev two_entries : Ledger
two_entries = record { entries = record started { category = "pipeline" } ∷ started ∷ [] }

get-grouped_example :
    group_of (Dict.get (grouped two_entries) "step") ≡ by_category "step" two_entries
get-grouped_example = get-grouped two_entries "step"

step_entries : by_category "step" two_entries ≡ started ∷ []
unfolding by_category keep_if
step_entries = refl

abbrev failed_entry : Entry
failed_entry = record {
  time = 9;
  level = level_error;
  category = "step";
  source = "run";
  message = "step failed";
  fields = [];
}

log_queries_example :
    (by_category "step" (log 9 level_error "step" "run" "step failed" [] two_entries)
      ≡ by_category "step" two_entries ++ (if str_eq "step" "step" then failed_entry ∷ [] else []))
    × (by_level level_warn (log 9 level_error "step" "run" "step failed" [] two_entries)
        ≡ by_level level_warn two_entries
          ++ (if leb level_warn level_error then failed_entry ∷ [] else []))
    × (by_source "runners" (log 9 level_error "step" "run" "step failed" [] two_entries)
        ≡ by_source "runners" two_entries
          ++ (if str_eq "run" "runners" then failed_entry ∷ [] else []))
log_queries_example =
    log_queries 9 level_error "step" "run" "step failed" [] two_entries "step" level_warn "runners"
