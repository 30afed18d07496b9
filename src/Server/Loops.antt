-- ===== src/Server/Loops.antt =====
-- cmd/server/server.go: the loops over the events of listeners and of pipelines, and what the server
-- logs and prints when it starts and stops. The ID, the time, the order of the lookup and the result
-- of Pool.Submit are arguments of each round.
mod Received
mod Tests
use lp.Base.{ℕ, String, List, [], ◌∷◌, ◌++◌, Option, none, some, ◌==◌, map, length, if◌then◌else◌}
use lp.Errors.{GoError}
use lp.Logging.{Entry, level_error, text, number, cat_pipeline, cat_server}
use lp.Logging
use lp.Observability.Tracker.{Stats}
use lp.Observability.Collector.{Snapshot}
use lp.Pipeline.Definition.{PipelineDef}
use lp.Runners.Step.{Pipeline}
use lp.Runners.Pool
use lp.Listener.Event
use lp.Server.State.{Server, note, print, prefix_info, prefix_fail, prefix_event}
use lp.Server.Dispatch.{dispatch_pipeline}

-- What a round reads: the order in which GetPipelineByName visits the pipelines, the ID that newID
-- returns, the time, and what Pool.Submit returns.
pub record Round : Type 0 where
  pub order : List (String × PipelineDef)
  pub run_id : String
  pub now : ℕ
  pub submitted : Option GoError

abbrev pub with_handed : Option Pipeline → List Pipeline → List Pipeline
with_handed none ps = ps
with_handed (some p) ps = p ∷ ps

-- The body of the loop of handleListenerEvents
unfoldable pub handle_listener_event : Round → Event.Event → Server → Server × Option Pipeline
handle_listener_event r e s =
    dispatch_pipeline r.order r.run_id r.now r.submitted e.pipeline "listener_event" (
      note
        (Logging.info r.now cat_pipeline "server" "event received" (
          ("listener", text e.listener)
          ∷ ("trigger", text e.trigger)
          ∷ ("pipeline", text e.pipeline)
          ∷ []))
        s)

-- handleListenerEvents, over the events that come until the channel is closed, with the pipelines
-- that are handed to the pool
unfoldable pub handle_listener_events : List (Round × Event.Event) → Server → Server × List Pipeline
unfolding handle_listener_event
handle_listener_events [] s = (s, [])
handle_listener_events ((r, e) ∷ rest) s =
    let (s', handed) = handle_listener_event r e s in
    let (t, later) = handle_listener_events rest s' in (t, with_handed handed later)

-- The body of the loop of handlePipelineEvents
unfoldable pub handle_pipeline_event : Round → Pool.Event → Server → Server × Option Pipeline
handle_pipeline_event r e s =
    dispatch_pipeline r.order r.run_id r.now r.submitted e.pipeline "pipeline_event" (
      note
        (Logging.info r.now cat_pipeline "server" "pipeline event emitted" (
          ("source", text e.source)
          ∷ ("trigger", text e.trigger)
          ∷ ("pipeline", text e.pipeline)
          ∷ []))
        (print prefix_event "pipeline %s fired %q → %s"
          (text e.source ∷ text e.trigger ∷ text e.pipeline ∷ []) s))

-- handlePipelineEvents
unfoldable pub handle_pipeline_events : List (Round × Pool.Event) → Server → Server × List Pipeline
unfolding handle_pipeline_event
handle_pipeline_events [] s = (s, [])
handle_pipeline_events ((r, e) ∷ rest) s =
    let (s', handed) = handle_pipeline_event r e s in
    let (t, later) = handle_pipeline_events rest s' in (t, with_handed handed later)

-- handleSignals, when a signal has come, but for the call of cancel
unfoldable pub handle_signal : ℕ → String → Server → Server
handle_signal now sig s =
    note (Logging.info now cat_server "server" "shutting down" (("signal", text sig) ∷ [])) s

-- The loops of printStartupSummary, over the pipelines, and over the groups of the ledger in the
-- order in which they are visited
unfoldable pub print_pipelines : List PipelineDef → Server → Server
print_pipelines [] s = s
print_pipelines (p ∷ ps) s = print_pipelines ps (
    print prefix_info "pipeline loaded: %s (id=%s, steps=%d)"
      (text p.name ∷ text p.id ∷ number (length p.steps) ∷ []) s)

unfoldable pub print_entries : String → List Entry → Server → Server
print_entries cat [] s = s
print_entries cat (e ∷ es) s = print_entries cat es (
    print (if e.level == level_error then prefix_fail else prefix_info) "[%s] %s: %s"
      (text cat ∷ text e.source ∷ text e.message ∷ []) s)

unfoldable pub print_groups : List (String × List Entry) → Server → Server
unfolding print_entries
print_groups [] s = s
print_groups ((cat, entries) ∷ groups) s = print_groups groups (print_entries cat entries s)

-- printStartupSummary
unfoldable pub print_startup_summary :
    List PipelineDef → List (String × List Entry) → Server → Server
unfolding print_pipelines print_groups
print_startup_summary pipelines groups s = print_groups groups (print_pipelines pipelines s)

-- The loops of printStats, over the hooks and the counters of a snapshot, and over the snapshots;
-- each snapshot comes with the order in which its counters are visited.
unfoldable pub print_hook_stats : String → List Stats → Server → Server
print_hook_stats component [] s = s
print_hook_stats component (h ∷ hs) s = print_hook_stats component hs (
    print prefix_info "stats [%s] %s: listeners=%d emits=%d panics=%d"
      (text component
        ∷ text h.name
        ∷ number h.listeners
        ∷ number h.emit_count
        ∷ number h.panics_caught
        ∷ [])
      s)

unfoldable pub print_counters : String → List (String × ℕ) → Server → Server
print_counters component [] s = s
print_counters component ((name, val) ∷ rest) s =
    print_counters component rest
      (print prefix_info "stats [%s] %s: %d" (text component ∷ text name ∷ number val ∷ []) s)

-- printStats
unfoldable pub print_stats : List (Snapshot × List (String × ℕ)) → Server → Server
unfolding print_hook_stats print_counters
print_stats [] s = s
print_stats ((snap, counters) ∷ rest) s =
    print_stats rest
      (print_counters snap.component counters (print_hook_stats snap.component snap.hooks s))
