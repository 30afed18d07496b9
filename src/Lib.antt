-- ===== src/Lib.antt =====
-- A model of LP, a server that runs pipelines of shell commands when local triggers fire.
--
-- The program. cmd/server loads pipelines from YAML files, listens for triggers, and dispatches a
-- pipeline by name: it creates a run in the store of internal/pipeline and hands the pipeline to the
-- pool of internal/runners. The pool runs the steps one after the other as commands of the operating
-- system and emits lifecycle hooks (internal/hooks, with the trackers of internal/observability). The
-- server registers callbacks on these hooks: they print and log (internal/logging), keep the run
-- records, tell WebSocket clients, and start configured commands.
--
-- The files.
-- - Base: shared names; Base/Dict is Go's map with string keys, Base/Text what is used of `strings`.
-- - Errors: the errors of the program as data, in place of formatted text.
-- - Hooks: internal/hooks/hooks.go.
-- - Observability/Tracker, Observability/Collector: tracker.go and collector.go;
--   Observability/Logger: logger.go; Observability/Collector/Copies, Observability/Collector/Counts:
--   proofs.
-- - Logging: internal/logging/ledger.go; Logging/Scoped: scoped.go; Logging/Queries: proofs.
-- - Runners/Step: internal/runners/step.go, pipeline.go, config.go; Runners/Hooks: hooks.go;
--   Runners/Pool: pool.go (the execution of one pipeline); Runners/Delivery: proofs about emits.
-- - Pipeline/Definition: internal/pipeline/pipeline.go, step.go; Pipeline/Id: id.go; Pipeline/Run:
--   run.go; Pipeline/Store: store.go; Pipeline/Store/Runs, Pipeline/Store/Migrate,
--   Pipeline/Store/Replace, Pipeline/Store/History: proofs.
-- - Listener/Event, Listener/Hooks, Listener/FileWatcher, Listener/Webhook, Listener/Manager: the files
--   of internal/listener; Listener/FileWatcher/Scan, Listener/Webhook/Requests: proofs;
--   Listener/Lifecycle: Start of manager.go, as a step relation; Listener/Lifecycle/Counts,
--   Listener/Lifecycle/Closed, Listener/Lifecycle/Launched, Listener/Lifecycle/LateSend: proofs.
-- - Server/State: the state and the CLI hooks of cmd/server/server.go; Server/Cli: cli.go;
--   Server/Commands: runHookCommand of events.go; Server/Tracking: registerRunTracking; Server/Wiring:
--   registerWSBroadcast, events.go and the registration order; Server/Wiring/Emits,
--   Server/Wiring/Registered, Server/Follow, Server/RunRecord, Server/RunRecord/Records,
--   Server/RunRecord/Progress: proofs; Server/Dispatch: dispatchPipeline; Server/Dispatched: proofs;
--   Server/Overlap: two runs of one pipeline; Server/Loops: the loops over events, signals and the
--   printed summaries of server.go; Server/Loops/Received: proofs; Server/Startup: newServer, and main
--   of main.go; Server/Startup/Report, Server/Startup/Summary, Server/Startup/Started: proofs;
--   Server/Shutdown: run and the end of main, as a step relation around that of Server/Chain;
--   Server/Shutdown/Late: proofs; Server/Loading: pipelines.go; Server/Loading/Results: proofs;
--   Server/Frames: the frames of ws.go; Server/Frames/RoundTrip, Server/Frames/Masked,
--   Server/Frames/Bounds: proofs; Server/Hub: the connections of ws.go; Server/Hub/Clients: proofs;
--   Server/Api: api.go, with Server/Api/Json and Server/Api/Texts; Server/Api/Routes: newAPI;
--   Server/Api/Paths, Server/Api/Answers, Server/Api/Routes/Mux, Server/Api/Routes/Served: proofs;
--   Server/Service: start and stop of api.go, and the ends of run; Server/Configuration:
--   configuration.go and loadConfiguration; Server/Listeners: listeners.go;
--   Server/Listeners/Registered: proofs; Server/Reload: watchPipelineDirectories and the functions it
--   calls; Server/Reload/Report, Server/Reload/Changes: proofs; Server/Chain: Submit, Wait and
--   emitEvents of pool.go with the two event loops of server.go, as a step relation;
--   Server/Chain/Bounds, Server/Chain/Progress, Server/Chain/Deadlock: proofs.
-- Each definition stands under the name of the function that it models, in snake_case.
--
-- The conventions.
-- - State is passed explicitly. A method that takes its object's lock is one step.
-- - The operating system is a parameter: the time, a command's environment and what a command prints.
--   One call of a callback reads the time once.
-- - Where a function ranges over a map, the order of the visit is an argument; IsOrder says that a
--   list is such an order. IDs that newID generates are arguments.
-- - A run is a pointer that the store and the server share. The runs live in the store under their
--   IDs, and a reference to a run is its ID; the store never deletes a run.
-- - An error is data (Errors), and `err.Error()` is the same value, none where the source has "".
-- - net/http's ServeMux is a parameter of the API's server; IsMux says what it is documented to pick.
-- - The file system, the YAML decoder and filepath.Join are parameters of the loading of files.
-- - A callback returns or panics; the panic handler returns.
-- - The counters of trackers wrap at 2 ^ 64. Loops are structural recursion, but for the
--   loop that reads a frame's payload: its fuel is the length, enough for a reader that returns at
--   least one byte at a time.
--
-- Not modelled: the file system, HTTP, JSON and YAML, the terminal, and the calls of the
-- log/slog logger in cmd/server, which writes to io.Discard.
pub mod Base
pub mod Errors
pub mod Hooks
pub mod Observability
pub mod Logging
pub mod Runners
pub mod Pipeline
pub mod Listener
pub mod Server
