-- ===== src/Server/Reload/Report.antt =====
-- cmd/server/server.go: what watchPipelineDirectories tells of a reload.
use mathlib.Core.List.{append-nil, append_assoc}
use lp.Base.{ℕ, String, List, [], ◌∷◌, ◌++◌, map, length, ◌≡◌, refl, sym, ◌∙◌, ap}
use lp.Errors.{GoError}
use lp.Logging
use lp.Logging.{Entry, Level, Fields, failure, number, cat_config}
use lp.Logging.Queries.{entries-log}
use lp.Server.State.{Server, WsEvent, print, note, prefix_ok, prefix_fail}
use lp.Server.Wiring.{broadcast, no_event}
use lp.Server.Reload.{report_errors, report_reload}

-- An entry of a reload
abbrev pub entry_of : ℕ → Level → String → Fields → Entry
entry_of now level message fields = record {
  time = now;
  level = level;
  category = cat_config;
  source = "server";
  message = message;
  fields = fields;
}

abbrev pub error_entry : ℕ → GoError → Entry
error_entry now e =
    entry_of now Logging.level_error "pipeline reload error" (("error", failure e) ∷ [])

-- The entries that a reload writes: one for the reload, and one for each error
abbrev pub reload_entries_of : ℕ → ℕ → List GoError → List Entry
reload_entries_of now loaded errs =
    entry_of now Logging.level_info "pipelines reloaded"
      (("loaded", number loaded) ∷ ("errors", number (length errs)) ∷ [])
    ∷ map (error_entry now) errs

-- The event that a reload broadcasts
abbrev pub reload_event : ℕ → ℕ → WsEvent
reload_event now loaded = record no_event {
  type = "pipelines_reloaded";
  time = now;
  steps = loaded;
}

report_errors_lem :
    (now : ℕ) (errs : List GoError) (s : Server)
    → ((report_errors now errs s).tracked ≡ s.tracked)
      × ((report_errors now errs s).broadcasts ≡ s.broadcasts)
      × ((report_errors now errs s).ledger.entries ≡ s.ledger.entries ++ map (error_entry now) errs)
unfolding report_errors print note Logging.error
report_errors_lem now [] s = (refl, refl, sym (append-nil s.ledger.entries))
report_errors_lem now (e ∷ es) s =
    let printed : Server = print prefix_fail "pipeline reload: %v" (failure e ∷ []) s in
    let noted : Server =
      note
        (Logging.error now cat_config "server" "pipeline reload error" (("error", failure e) ∷ []))
        printed in
    let (kept, told, logged) = report_errors_lem now es noted in
    let errors : List Entry = map (error_entry now) es in
    (
      kept,
      told,
      logged
          ∙ ap (λ front. front ++ errors)
              (entries-log now Logging.level_error cat_config "server" "pipeline reload error"
                (("error", failure e) ∷ []) s.ledger)
          ∙ append_assoc s.ledger.entries _ errors,
    )

-- What a reload tells
pub report_reload_lem :
    (now loaded : ℕ) (errs : List GoError) (s : Server)
    → ((report_reload now loaded errs s).tracked ≡ s.tracked)
      × ((report_reload now loaded errs s).broadcasts
          ≡ s.broadcasts ++ (reload_event now loaded ∷ []))
      × ((report_reload now loaded errs s).ledger.entries
          ≡ s.ledger.entries ++ reload_entries_of now loaded errs)
unfolding report_reload print note broadcast Logging.info
report_reload_lem now loaded errs s =
    let fields : Fields = ("loaded", number loaded) ∷ ("errors", number (length errs)) ∷ [] in
    let told : Server =
      broadcast now (record no_event { type = "pipelines_reloaded"; steps = loaded })
        (print prefix_ok "pipelines reloaded: %d loaded" (number loaded ∷ []) s) in
    let noted : Server =
      note (Logging.info now cat_config "server" "pipelines reloaded" fields) told in
    let (kept, same, logged) = report_errors_lem now errs noted in
    let errors : List Entry = map (error_entry now) errs in
    (
      kept,
      same,
      logged
          ∙ ap (λ front. front ++ errors)
              (entries-log now Logging.level_info cat_config "server" "pipelines reloaded" fields
                s.ledger)
          ∙ append_assoc s.ledger.entries _ errors,
    )
