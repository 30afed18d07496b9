-- ===== src/Listener/Lifecycle/Tests.antt =====
-- internal/listener/manager.go, Start: one run with a file watcher that sends an event.
use lp.Base.{true, false, [], ◌∷◌, none, ◌≡◌, ◌⊎◌, refl, arith}
use lp.Base.Dict
use lp.Listener.Event.{Event}
use lp.Listener.FileWatcher.{FileWatcher}
use lp.Listener.Webhook.{Webhook}
use lp.Listener.Manager.{Listener, file_watcher, webhook, listener_name}
use lp.Listener.Lifecycle.{
  launched, serving, returned, leaving, gone, at, ManagerSystem, start_manager, begin, send, return,
  stopped, done, launch, launched_all, work, cancel, stop_all, stop, close, Reach, begun, next,
  finished, listener_started, listener_stopped,
}
use lp.Listener.Lifecycle.Counts.{started_calls, stopped_calls}
use lp.Listener.Lifecycle.Launched.{closes_orderly}
use lp.Listener.Lifecycle.LateSend.{handler_sends_late}

abbrev inbox : FileWatcher
inbox = record {
  name = "inbox";
  path = "/in";
  pattern = "*";
  pipeline = "import";
  interval = 5;
  done = false;
  mod_times = Dict.empty;
}

abbrev hook : Webhook
hook = record {
  name = "hook";
  pipeline = "deploy";
  addr = ":9000";
  events = Dict.empty;
  done = false;
}

abbrev arrived : Event
arrived = record { listener = "inbox"; trigger = "file_changed"; pipeline = "import"; payload = [] }

abbrev ended : ManagerSystem
ended = record {
  main = finished;
  workers = at (file_watcher inbox) gone ∷ [];
  wg = 0;
  handlers = 0;
  pending = arrived ∷ [];
  hook_calls = listener_started "inbox" ∷ listener_stopped "inbox" ∷ [];
  cancelled = true;
  closed = true;
  worker_panicked = false;
  handler_panicked = false;
}

ended-Reach : Reach 1 (file_watcher inbox ∷ []) ended
unfolding start_manager listener_name
ended-Reach =
    let l : Listener = file_watcher inbox in
    let launching = next begun (launch l [] refl refl) in
    let started = next launching (work [] [] l launched refl (begin refl)) in
    let sent =
      next started (work [] [] l serving refl (send arrived refl refl (omega arith) refl)) in
    let waits = next sent (launched_all refl refl) in
    let off = next waits (cancel refl) in
    let served = next off (work [] [] l serving refl (return refl refl)) in
    let told = next served (work [] [] l (returned none) refl (stopped refl)) in
    let left = next told (work [] [] l leaving refl (done refl)) in
    let stops = next left (stop_all refl refl refl) in
    let last = next stops (stop l [] refl refl) in next last (close refl refl refl)

closes_orderly_example :
    (ended.worker_panicked ≡ false)
    × ((ended.closed ≡ false)
        ⊎ ((ended.workers ≡ at (file_watcher inbox) gone ∷ [])
            × (started_calls ended.hook_calls ≡ 1)
            × (stopped_calls ended.hook_calls ≡ 1)))
closes_orderly_example = closes_orderly 1 (file_watcher inbox ∷ []) ended ended-Reach

handler_sends_late_example :
    (s : ManagerSystem) × Reach 64 (webhook hook ∷ []) s
    × (s.main ≡ finished)
    × (s.handler_panicked ≡ true)
handler_sends_late_example = handler_sends_late 64 hook
