-- ===== src/Listener/Manager.antt =====
-- internal/listener/manager.go and listener.go: the listeners that are managed, and the channel of
-- their events. A method that takes the lock is one step.
use lp.Base.{ℕ, String, List, [], ◌∷◌, ◌++◌}
use lp.Listener.Event.{Event}
use lp.Listener.FileWatcher.{FileWatcher, stop_watcher}
use lp.Listener.Webhook.{Webhook, stop_webhook}
use lp.Listener.Hooks.{ListenerHooks, new_listener_hooks}

-- Listener: the interface, with its two implementations
pub data Listener : Type 0 where
  file_watcher : FileWatcher → Listener
  webhook : Webhook → Listener

-- Name
unfoldable pub listener_name : Listener → String
listener_name (file_watcher w) = w.name
listener_name (webhook w) = w.name

-- Stop: its error is nil in both implementations.
unfoldable pub stop_listener : Listener → Listener
unfolding stop_watcher stop_webhook
stop_listener (file_watcher w) = file_watcher (stop_watcher w)
stop_listener (webhook w) = webhook (stop_webhook w)

-- Manager: `buffer` is the capacity of the channel, `pending` the events in it.
pub record Manager (W : Type 0) : Type 0 where
  pub listeners : List Listener
  pub buffer : ℕ
  pub pending : List Event
  pub hooks : ListenerHooks W

module _ {W : Type 0} where
  -- NewManager
  unfoldable pub new_manager : ℕ → Manager W
  unfolding new_listener_hooks
  new_manager buffer_size = record {
    listeners = [];
    buffer = buffer_size;
    pending = [];
    hooks = new_listener_hooks;
  }

  -- Register
  unfoldable pub register : Listener → Manager W → Manager W
  register l m = record m { listeners = m.listeners ++ l ∷ [] }

  -- Events: what is in the channel
  unfoldable pub events : Manager W → List Event
  events m = m.pending
