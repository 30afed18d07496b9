-- ===== src/Server/Startup/Report.antt =====
-- cmd/server/server.go, newServer: what the ledger tells of the start, and what main puts together.
use mathlib.Core.List.{append-nil, append_assoc, map-append}
use lp.Base.{ℕ, String, List, [], ◌∷◌, ◌++◌, map, length, ◌≡◌, sym, ◌∙◌, ap}
use lp.Errors.{GoError}
use lp.Logging.{
  Entry, Fields, Level, Ledger, text, texts, number, failure, level_info, level_error, cat_config,
  new_ledger,
}
use lp.Logging
use lp.Logging.Queries.{entries-log}
use lp.Server.State.{Server}
use lp.Server.Configuration.{Configuration}
use lp.Server.Loading.{Loaded}
use lp.Server.Listeners.{Registration}
use lp.Server.Startup.{info_now, error_now, log_errors, startup_ledger}

-- An entry of newServer, without its time
abbrev pub told : Level → String → Fields → Entry
told level message fields = record {
  time = 0;
  level = level;
  category = cat_config;
  source = "server";
  message = message;
  fields = fields;
}

abbrev pub told_error : String → GoError → Entry
told_error message e = told level_error message (("error", failure e) ∷ [])

abbrev pub untimed : Ledger → List Entry
untimed l = map (λ (e : Entry). record e { time = 0 }) l.entries

untimed-log :
    (now : ℕ) (level : Level) (message : String) (fields : Fields) (l : Ledger)
    → untimed (Logging.log now level cat_config "server" message fields l)
      ≡ untimed l ++ (told level message fields ∷ [])
untimed-log now level message fields l =
    ap (map (λ (e : Entry). record e { time = 0 }))
      (entries-log now level cat_config "server" message fields l)
    ∙ map-append _ l.entries _

untimed-log_errors :
    (clock : ℕ → ℕ) (message : String) (es : List GoError) (l : Ledger)
    → untimed (log_errors clock message es l) ≡ untimed l ++ map (told_error message) es
unfolding log_errors error_now Logging.error
untimed-log_errors clock message [] l = sym (append-nil (untimed l))
untimed-log_errors clock message (e ∷ es) l =
    untimed-log_errors clock message es _
    ∙ ap (λ front. front ++ map (told_error message) es)
        (untimed-log (clock (length l.entries)) level_error message (("error", failure e) ∷ []) l)
    ∙ append_assoc (untimed l) (told_error message e ∷ []) (map (told_error message) es)

abbrev pub told_configured : Configuration → Entry
told_configured cfg = told level_info "configuration loaded" (
    ("timeout", number cfg.runners.timeout)
    ∷ ("max_concurrent", number cfg.runners.max_concurrent)
    ∷ ("pipeline_directories", texts cfg.directories)
    ∷ [])

abbrev pub told_loaded : Loaded → Entry
told_loaded l =
    told level_info "pipelines loaded"
      (("loaded", number l.loaded) ∷ ("errors", number (length l.errs)) ∷ [])

abbrev pub told_listeners : Registration Server → Entry
told_listeners r =
    told level_info "listeners configured"
      (("registered", number r.registered) ∷ ("errors", number (length r.errs)) ∷ [])

module _ (clock : ℕ → ℕ) (cfg : Configuration) (loaded : Loaded)
    (registration : Registration Server) where
  pub untimed-startup_ledger :
      untimed (startup_ledger clock cfg loaded registration)
      ≡ told_configured cfg
        ∷ told_loaded loaded
        ∷ (map (told_error "pipeline load error") loaded.errs
            ++ (told_listeners registration
                ∷ map (told_error "listener config error") registration.errs))
  unfolding startup_ledger info_now Logging.info new_ledger
  untimed-startup_ledger =
      untimed-log_errors clock "listener config error" registration.errs with_listeners
      ∙ ap (λ front. front ++ map (told_error "listener config error") registration.errs)
          (untimed-log (clock (length reported.entries)) level_info "listeners configured"
              (told_listeners registration).fields reported
            ∙ ap (λ front. front ++ (told_listeners registration ∷ []))
                (untimed-log_errors clock "pipeline load error" loaded.errs with_pipelines
                  ∙ ap (λ front. front ++ map (told_error "pipeline load error") loaded.errs)
                      (untimed-log (clock (length configured.entries)) level_info "pipelines loaded"
                          (told_loaded loaded).fields configured
                        ∙ ap (λ front. front ++ (told_loaded loaded ∷ []))
                            (untimed-log (clock 0) level_info "configuration loaded"
                              (told_configured cfg).fields new_ledger))))
      ∙ append_assoc
          (told_configured cfg
            ∷ told_loaded loaded
            ∷ map (told_error "pipeline load error") loaded.errs)
          (told_listeners registration ∷ [])
          (map (told_error "listener config error") registration.errs)
    where
      configured : Ledger
      configured = info_now clock "configuration loaded" (told_configured cfg).fields new_ledger

      with_pipelines : Ledger
      with_pipelines = info_now clock "pipelines loaded" (told_loaded loaded).fields configured

      reported : Ledger
      reported = log_errors clock "pipeline load error" loaded.errs with_pipelines

      with_listeners : Ledger
      with_listeners =
          info_now clock "listeners configured" (told_listeners registration).fields reported
