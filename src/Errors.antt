-- ===== src/Errors.antt =====
-- The errors that the program builds with fmt.Errorf and errors it gets from outside, as data: the
-- operands in place of the formatted text. `err.Error()` is the same value.
use lp.Base.{ℕ, String}

pub data GoError : Type 0 where
  -- an error of the operating system or of a library, by its text
  external : String → GoError
  -- "%w: %s" in Step.Execute: the error of cmd.Run and the trimmed stderr
  command_failed : String → String → GoError
  -- "pipeline %q step %d (%s): %w" in Pool.run
  step_error : String → ℕ → String → GoError → GoError
  -- "pipeline %q: not found", "pipeline name %q: not found", "run %q: not found" in Store
  pipeline_not_found : String → GoError
  pipeline_name_not_found : String → GoError
  run_not_found : String → GoError
  -- the errors of loading: "pipeline directory %q: …", "pipeline file %q: …", and what they wrap
  directory_error : String → GoError → GoError
  not_a_directory : GoError
  file_error : String → GoError → GoError
  reading_file : GoError → GoError
  parsing_yaml : GoError → GoError
  missing_name : GoError
  no_steps : String → GoError
  -- the errors of internal/listener: of the file watcher, the webhook and the manager
  missing_path missing_addr : GoError
  reading_directory : String → GoError → GoError
  watcher_scan : String → GoError → GoError
  webhook_listen webhook_serve : String → GoError → GoError
  listener_error listener_stop_error : String → GoError → GoError
  -- the errors of RegisterConfiguredListeners
  entry_without_name : GoError
  entry_without_type : String → GoError
  entry_unknown_type : String → String → GoError
  entry_refused : String → String → GoError → GoError
  -- the errors of loadConfiguration
  usage : GoError
  reading_configuration parsing_configuration : GoError → GoError
