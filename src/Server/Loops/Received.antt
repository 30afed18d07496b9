-- ===== src/Server/Loops/Received.antt =====
-- cmd/server/server.go: what the loops over events leave in the ledger.
use lp.Base.{
  ℕ, String, false, List, [], ◌∷◌, ◌++◌, Option, none, some, map, keep_if, keep_if-append, str_eq,
  ◌≡◌, refl, sym, ◌∙◌, ap, Option-cases, inl, inr, arith,
}
use mathlib.Core.List.{append-nil, append_assoc}
use lp.Errors.{GoError, pipeline_name_not_found}
use lp.Logging.{Entry, Fields, Ledger, text, failure, level_info, level_error, cat_pipeline}
use lp.Logging
use lp.Logging.Queries.{entries-log}
use lp.Pipeline.Definition.{PipelineDef}
use lp.Pipeline.Run.{Run}
use lp.Runners.Step.{Pipeline}
use lp.Pipeline.Store.{Store, Fallible, ok, err, find_by_name, get_pipeline_by_name, create_run}
use lp.Listener.Event
use lp.Server.State.{Server, note}
use lp.Server.Dispatch.{dispatch_pipeline, submit_run}
use lp.Server.Loops.{Round, handle_listener_event, handle_listener_events}

-- The entries with a message
abbrev pub with_message : String → List Entry → List Entry
with_message message entries = keep_if (λ (e : Entry). str_eq e.message message) entries

-- The entry of a received event
abbrev pub received_entry : Round × Event.Event → Entry
received_entry (r, e) = record {
  time = r.now;
  level = level_info;
  category = cat_pipeline;
  source = "server";
  message = "event received";
  fields =
      ("listener", text e.listener)
      ∷ ("trigger", text e.trigger)
      ∷ ("pipeline", text e.pipeline)
      ∷ [];
}

module _ (now level : ℕ) (category source message : String) (fields : Fields) (l : Ledger) where
  abbrev new_entry : Entry
  new_entry = record {
    time = now;
    level = level;
    category = category;
    source = source;
    message = message;
    fields = fields;
  }

  with_message-log :
      with_message "event received" (Logging.log now level category source message fields l).entries
      ≡ with_message "event received" l.entries ++ with_message "event received" (new_entry ∷ [])
  with_message-log =
      ap (with_message "event received") (entries-log now level category source message fields l)
      ∙ keep_if-append _ l.entries (new_entry ∷ [])

  with_message-other :
      str_eq message "event received" ≡ false
      → with_message "event received"
          (Logging.log now level category source message fields l).entries
        ≡ with_message "event received" l.entries
  unfolding keep_if
  with_message-other other =
      ground (arith, with_message-log, other, append-nil (with_message "event received" l.entries))

module _ (r : Round) (name : String) (s : Server) where
  abbrev IsKept : Server → Type 0
  IsKept t =
      with_message "event received" t.ledger.entries
      ≡ with_message "event received" s.ledger.entries

  submit_run-IsKept :
      (submitted : Option GoError) (p : PipelineDef) (created : Run × Store)
      → IsKept (submit_run r.now name "listener_event" submitted p created s).0
  unfolding submit_run note Logging.error
  submit_run-IsKept none p (run, store) = refl
  submit_run-IsKept (some e) p (run, store) =
      with_message-other r.now level_error cat_pipeline "server" "listener_event submit failed" _
        s.ledger refl

  -- dispatchPipeline from CreateRun on
  abbrev submit_created : PipelineDef → Fallible (Run × Store) → Server × Option Pipeline
  submit_created p (err e) = (s, none)
  submit_created p (ok created) = submit_run r.now name "listener_event" r.submitted p created s

  submit_created-IsKept :
      (p : PipelineDef) (created : Fallible (Run × Store)) → IsKept (submit_created p created).0
  submit_created-IsKept p (err e) = refl
  submit_created-IsKept p (ok created) = submit_run-IsKept r.submitted p created

  dispatch_found :
      (p : PipelineDef)
      → find_by_name name r.order ≡ some p
      → dispatch_pipeline r.order r.run_id r.now r.submitted name "listener_event" s
        ≡ submit_created p (create_run r.run_id p.id s.tracked.store)
  unfolding dispatch_pipeline get_pipeline_by_name
  dispatch_found p found = ground (arith, found)

  dispatch_pipeline-IsKept :
      IsKept (dispatch_pipeline r.order r.run_id r.now r.submitted name "listener_event" s).0
  unfolding dispatch_pipeline get_pipeline_by_name note Logging.error
  dispatch_pipeline-IsKept = elim (Option-cases (find_by_name name r.order)) [
    | inl missing ↦ ground (
      arith,
      missing,
      with_message-other r.now level_error cat_pipeline "server" "listener_event target not found"
          (("pipeline", text name) ∷ ("error", failure (pipeline_name_not_found name)) ∷ [])
          s.ledger refl,
    )
    | inr (p, found) ↦
        ap (λ (x : Server × Option Pipeline). with_message "event received" x.0.ledger.entries)
          (dispatch_found p found)
        ∙ submit_created-IsKept p (create_run r.run_id p.id s.tracked.store)
  ]

one_received :
    (r : Round) (e : Event.Event) (s : Server)
    → with_message "event received" (handle_listener_event r e s).0.ledger.entries
      ≡ with_message "event received" s.ledger.entries ++ (received_entry (r, e) ∷ [])
unfolding handle_listener_event note Logging.info keep_if
one_received r e s =
    dispatch_pipeline-IsKept r e.pipeline _
    ∙ with_message-log r.now level_info cat_pipeline "server" "event received" _ s.ledger

-- Each event that a listener sends is logged once as "event received", with its listener, trigger and
-- pipeline, in the order in which the events come, whatever its dispatch comes to; the entries of this
-- kind from before stay in front.
pub events_received :
    (events : List (Round × Event.Event)) (s : Server)
    → with_message "event received" (handle_listener_events events s).0.ledger.entries
      ≡ with_message "event received" s.ledger.entries ++ map received_entry events
unfolding handle_listener_events
events_received [] s = sym (append-nil _)
events_received ((r, e) ∷ rest) s =
    events_received rest (handle_listener_event r e s).0
    ∙ ap (λ es. es ++ map received_entry rest) (one_received r e s)
    ∙ append_assoc _ (received_entry (r, e) ∷ []) (map received_entry rest)
