-- ===== src/Observability/Logger.antt =====
-- internal/observability/logger.go, and Log of collector.go. The package log/slog is a parameter: its
-- loggers, in a type `L`, write to a state `S`. The pairs of a key and a value that a method takes are
-- a list of such pairs.
use lp.Base.{ℕ, String, List, [], ◌∷◌, Option, none, some}
use lp.Logging.{Fields, text, number}
use lp.Observability.Tracker.{Stats}
use lp.Observability.Collector.{Snapshot}

-- log/slog: slog.New of a JSON handler for a writer and a level, and the methods of the logger.
-- `V` is slog.Level, `D` are the writers.
pub record Slog (L V D S : Type 0) : Type 0 where
  pub info_level : V
  pub new_json : D → V → L
  pub with_args : Fields → L → L
  pub log_info : String → Fields → L → S → S
  pub log_error : String → Fields → L → S → S
  pub log_warn : String → Fields → L → S → S
  pub log_debug : String → Fields → L → S → S

-- Logger
pub record Logger (L : Type 0) : Type 0 where
  pub inner : L

module _ {L V D S : Type 0} (slog : Slog L V D S) where
  -- NewLoggerTo
  unfoldable pub new_logger_to : String → D → Logger L
  new_logger_to component w = record {
    inner = slog.with_args (("component", text component) ∷ []) (slog.new_json w slog.info_level);
  }

  -- NewLogger; `stderr` is os.Stderr.
  unfoldable pub new_logger : D → String → Logger L
  unfolding new_logger_to
  new_logger stderr component = new_logger_to component stderr

  -- NewLoggerWithLevel
  unfoldable pub new_logger_with_level : D → String → V → Logger L
  new_logger_with_level stderr component level = record {
    inner = slog.with_args (("component", text component) ∷ []) (slog.new_json stderr level);
  }

  -- With
  unfoldable pub with_fields : Fields → Logger L → Logger L
  with_fields args l = record { inner = slog.with_args args l.inner }

  -- Info, Error, Warn and Debug
  unfoldable pub info : String → Fields → Logger L → S → S
  info msg args l s = slog.log_info msg args l.inner s

  unfoldable pub error : String → Fields → Logger L → S → S
  error msg args l s = slog.log_error msg args l.inner s

  unfoldable pub warn : String → Fields → Logger L → S → S
  warn msg args l s = slog.log_warn msg args l.inner s

  unfoldable pub debug : String → Fields → Logger L → S → S
  debug msg args l s = slog.log_debug msg args l.inner s

  -- The loops of Collector.Log, over the hooks and the counters of a snapshot
  unfoldable pub log_hooks : Logger L → String → List Stats → S → S
  unfolding info
  log_hooks l component [] s = s
  log_hooks l component (h ∷ hs) s = log_hooks l component hs (
      info "hook_stats"
        (("source", text component)
          ∷ ("hook", text h.name)
          ∷ ("listeners", number h.listeners)
          ∷ ("emit_count", number h.emit_count)
          ∷ ("panics_caught", number h.panics_caught)
          ∷ [])
        l s)

  unfoldable pub log_counters : Logger L → String → List (String × ℕ) → S → S
  unfolding info
  log_counters l component [] s = s
  log_counters l component ((name, val) ∷ rest) s = log_counters l component rest (
      info "counter"
        (("source", text component) ∷ ("counter", text name) ∷ ("value", number val) ∷ []) l s)

  -- The loop over the snapshots; each comes with the order in which its counters are visited.
  unfoldable pub log_snapshots : Logger L → List (Snapshot × List (String × ℕ)) → S → S
  unfolding log_hooks log_counters
  log_snapshots l [] s = s
  log_snapshots l ((snap, counters) ∷ rest) s =
      log_snapshots l rest
        (log_counters l snap.component counters (log_hooks l snap.component snap.hooks s))

  -- Collector.Log, where the collector has the logger, and All returns the snapshots
  unfoldable pub log_collector : Option (Logger L) → List (Snapshot × List (String × ℕ)) → S → S
  unfolding log_snapshots
  log_collector none snapshots s = s
  log_collector (some l) snapshots s = log_snapshots l snapshots s
