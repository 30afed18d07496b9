-- ===== src/Server/Loops/Tests.antt =====
-- cmd/server/server.go: the loops over events on concrete events.
use lp.Base.{List, [], ◌∷◌, none, length, keep_if, ◌≡◌, refl}
use lp.Base.Dict
use lp.Logging.{Entry, level_error, level_info}
use lp.Logging
use lp.Pipeline.Definition.{PipelineDef}
use lp.Listener.Event
use lp.Server.State.{Server, note}
use lp.Pipeline.Store.{get_pipeline_by_name, create_run}
use lp.Server.Dispatch.{dispatch_pipeline}
use lp.Server.Loops.{Round, handle_listener_events}
use lp.Server.Loops.Received.{with_message, received_entry, events_received}

abbrev build : PipelineDef
build = record { id = "p1"; name = "build"; steps = []; emit = [] }

abbrev idle : Server
idle = record {
  tracked = record {
    store = record {
      pipelines = record { entries = ("p1", build) ∷ [] };
      runs = Dict.empty;
      by_pipeline = Dict.empty;
    };
    active_runs = Dict.empty;
  };
  ledger = record { entries = [] };
  output = [];
  broadcasts = [];
  commands = [];
}

abbrev round : Round
round = record { order = ("p1", build) ∷ []; run_id = "r1"; now = 7; submitted = none }

abbrev push : Event.Event
push = record { listener = "hook"; trigger = "push"; pipeline = "build"; payload = [] }

abbrev typo : Event.Event
typo = record { listener = "hook"; trigger = "push"; pipeline = "biuld"; payload = [] }

abbrev two_events : List (Round × Event.Event)
two_events = (round, push) ∷ (round, typo) ∷ []

-- Two events are received, one pipeline is handed over, and one target is not found.
events_received_example :
    with_message "event received" (handle_listener_events two_events idle).0.ledger.entries
    ≡ received_entry (round, push) ∷ received_entry (round, typo) ∷ []
unfolding keep_if
events_received_example = events_received two_events idle

handed_over :
    (length (handle_listener_events two_events idle).1 ≡ 1)
    × (length (handle_listener_events two_events idle).0.ledger.entries ≡ 3)
unfolding handle_listener_events dispatch_pipeline get_pipeline_by_name create_run Logging.info
    Logging.error note Dict.get
handed_over = (refl, refl)
