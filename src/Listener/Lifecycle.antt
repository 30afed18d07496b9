-- ===== src/Listener/Lifecycle.antt =====
-- internal/listener/manager.go, Start, with the sends of file_watcher.go and webhook.go: the goroutine
-- that called Start, one goroutine for each listener, and the goroutines of net/http that run the
-- handler of a webhook. They run interleaved in any order. What a listener does between its sends
-- takes some time and no more, and Start of it may return an error at any time.
mod Counts
mod Closed
mod Launched
mod LateSend
mod Tests
use lp.Base.{
  ℕ, ◌+◌, ◌-◌, ◌<◌, String, Bool, true, false, List, [], ◌∷◌, ◌++◌, Option, none, some, map, length,
  ◌≡◌,
}
use lp.Errors.{GoError}
use lp.Listener.Event.{Event}
use lp.Listener.Manager.{Listener, file_watcher, webhook, listener_name}

-- Where a listener's goroutine is: before emitListenerStarted, in Start, behind Start with the error
-- that is yet to be emitted, before wg.Done, or at its end.
pub data Phase : Type 0 where
  launched : Phase
  serving : Phase
  returned : Option GoError → Phase
  leaving : Phase
  gone : Phase

pub record Worker : Type 0 where
  pub listener : Listener
  pub phase : Phase

-- Where Start of the manager is: in the first loop, with the listeners that are left, at
-- `<-ctx.Done()`, in the second loop, or at its end.
pub data MainPhase : Type 0 where
  launching : List Listener → MainPhase
  waiting : MainPhase
  stopping : List Listener → MainPhase
  finished : MainPhase

-- The calls of the emit functions
pub data HookCall : Type 0 where
  listener_started : String → HookCall
  listener_error : String → GoError → HookCall
  listener_stopped : String → HookCall

-- `handlers` counts the handlers of webhooks that have yet to send their event, `pending` is what the
-- channel holds. The last two say whether a send on the closed channel has panicked: in the goroutine
-- of a listener, or in a handler, where net/http recovers.
pub record ManagerSystem : Type 0 where
  pub main : MainPhase
  pub workers : List Worker
  pub wg : ℕ
  pub handlers : ℕ
  pub pending : List Event
  pub hook_calls : List HookCall
  pub cancelled : Bool
  pub closed : Bool
  pub worker_panicked : Bool
  pub handler_panicked : Bool

unfoldable pub start_manager : List Listener → ManagerSystem
start_manager listeners = record {
  main = launching listeners;
  workers = [];
  wg = 0;
  handlers = 0;
  pending = [];
  hook_calls = [];
  cancelled = false;
  closed = false;
  worker_panicked = false;
  handler_panicked = false;
}

abbrev pub at : Listener → Phase → Worker
at l p = record { listener = l; phase = p }

abbrev pub is_webhook : Listener → Bool
is_webhook (file_watcher w) = false
is_webhook (webhook w) = true

module _ (buffer : ℕ) where
  -- A worker goes from one phase to another: the state with its new phase.
  pub data WorkerStep (s t : ManagerSystem) (before after : List Worker) (l : Listener)
      : Phase → Type 0 where
    -- emitListenerStarted, and Start is called.
    begin :
        t ≡ record s {
          workers = before ++ (at l serving ∷ after);
          hook_calls = s.hook_calls ++ (listener_started (listener_name l) ∷ []);
        }
        → WorkerStep s t before after l launched
    -- scan of a file watcher sends an event: there is room in the channel.
    send :
        (e : Event)
        → is_webhook l ≡ false
        → s.closed ≡ false
        → length s.pending < buffer
        → t ≡ record s { pending = s.pending ++ (e ∷ []) }
        → WorkerStep s t before after l serving
    send_closed :
        is_webhook l ≡ false
        → s.closed ≡ true
        → t ≡ record s { worker_panicked = true }
        → WorkerStep s t before after l serving
    -- While Start runs, the server of a webhook starts a handler, which gets as far as its send.
    request :
        is_webhook l ≡ true
        → t ≡ record s { handlers = s.handlers + 1 }
        → WorkerStep s t before after l serving
    -- Start returns an error.
    fail :
        (e : GoError)
        → t ≡ record s { workers = before ++ (at l (returned (some e)) ∷ after) }
        → WorkerStep s t before after l serving
    -- Start returns nil: the context is cancelled. Serve returns when Shutdown begins, whether or
    -- not handlers still run.
    return :
        s.cancelled ≡ true
        → t ≡ record s { workers = before ++ (at l (returned none) ∷ after) }
        → WorkerStep s t before after l serving
    -- emitListenerError
    report :
        (e : GoError)
        → t ≡ record s {
          workers = before ++ (at l (returned none) ∷ after);
          hook_calls = s.hook_calls ++ (listener_error (listener_name l) e ∷ []);
        }
        → WorkerStep s t before after l (returned (some e))
    -- emitListenerStopped
    stopped :
        t ≡ record s {
          workers = before ++ (at l leaving ∷ after);
          hook_calls = s.hook_calls ++ (listener_stopped (listener_name l) ∷ []);
        }
        → WorkerStep s t before after l (returned none)
    -- wg.Done()
    done :
        t ≡ record s { workers = before ++ (at l gone ∷ after); wg = s.wg - 1 }
        → WorkerStep s t before after l leaving

  pub data ManagerStep (s t : ManagerSystem) : Type 0 where
    -- wg.Add(1), and the goroutine is started.
    launch :
        (l : Listener) (rest : List Listener)
        → s.main ≡ launching (l ∷ rest)
        → t ≡ record s {
          main = launching rest;
          workers = s.workers ++ (at l launched ∷ []);
          wg = s.wg + 1;
        }
        → ManagerStep s t
    launched_all : s.main ≡ launching [] → t ≡ record s { main = waiting } → ManagerStep s t
    work :
        (before after : List Worker) (l : Listener) (p : Phase)
        → s.workers ≡ before ++ (at l p ∷ after)
        → WorkerStep s t before after l p
        → ManagerStep s t
    -- A handler sends its event.
    accept :
        (n : ℕ) (e : Event)
        → s.handlers ≡ n + 1
        → s.closed ≡ false
        → length s.pending < buffer
        → t ≡ record s { handlers = n; pending = s.pending ++ (e ∷ []) }
        → ManagerStep s t
    accept_closed :
        (n : ℕ)
        → s.handlers ≡ n + 1
        → s.closed ≡ true
        → t ≡ record s { handlers = n; handler_panicked = true }
        → ManagerStep s t
    -- handleListenerEvents takes an event.
    take_event :
        (e : Event) (rest : List Event)
        → s.pending ≡ e ∷ rest
        → t ≡ record s { pending = rest }
        → ManagerStep s t
    cancel : t ≡ record s { cancelled = true } → ManagerStep s t
    -- <-ctx.Done()
    stop_all :
        s.main ≡ waiting
        → s.cancelled ≡ true
        → t ≡ record s { main = stopping (map (λ (w : Worker). w.listener) s.workers) }
        → ManagerStep s t
    -- Stop of one listener, whose error is nil
    stop :
        (l : Listener) (rest : List Listener)
        → s.main ≡ stopping (l ∷ rest)
        → t ≡ record s { main = stopping rest }
        → ManagerStep s t
    -- wg.Wait() and close(m.events)
    close :
        s.main ≡ stopping []
        → s.wg ≡ 0
        → t ≡ record s { main = finished; closed = true }
        → ManagerStep s t

  pub data Reach (listeners : List Listener) : ManagerSystem → Type 0 where
    begun : Reach listeners (start_manager listeners)
    next : {s t : ManagerSystem} → Reach listeners s → ManagerStep s t → Reach listeners t
