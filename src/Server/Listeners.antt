-- ===== src/Server/Listeners.antt =====
-- cmd/server/listeners.go: listeners are made from the entries of the configuration.
pub mod Registered
mod Tests
use lp.Base.{ℕ, ◌+◌, String, List, [], ◌∷◌, ◌++◌, Option, none, some, is_empty, if◌then◌else◌}
use lp.Base.Dict.{Dict}
use lp.Base.Dict
use lp.Errors.{GoError, entry_without_name, entry_without_type, entry_unknown_type, entry_refused}
use lp.Pipeline.Store.{Fallible, ok, err}
use lp.Listener.FileWatcher.{new_file_watcher}
use lp.Listener.Webhook.{new_webhook}
use lp.Listener.Manager.{Listener, file_watcher, webhook, Manager, register}
use lp.Server.Configuration.{
  ConfigValue, string, int, float64, items, strings, other, ListenerEntry, seconds,
}

-- ListenerFactory
abbrev pub ListenerFactory : Type 0
ListenerFactory = ListenerEntry → Fallible Listener

-- v, _ := entry.Config[key].(string)
unfoldable pub string_of : Option ConfigValue → String
string_of none = ""
string_of (some (string s)) = s
string_of (some (int n)) = ""
string_of (some (float64 n)) = ""
string_of (some (items xs)) = ""
string_of (some (strings xs)) = ""
string_of (some other) = ""

-- The type switch on entry.Config["interval"]
unfoldable pub interval_of : Option ConfigValue → ℕ
unfolding seconds
interval_of none = 0
interval_of (some (string s)) = 0
interval_of (some (int n)) = seconds n
interval_of (some (float64 n)) = seconds n
interval_of (some (items xs)) = 0
interval_of (some (strings xs)) = 0
interval_of (some other) = 0

-- The loop over the items of entry.Config["events"]
unfoldable pub texts_of : List (Option String) → List String
texts_of [] = []
texts_of (none ∷ xs) = texts_of xs
texts_of (some s ∷ xs) = s ∷ texts_of xs

-- The type switch on entry.Config["events"]
unfoldable pub events_of : Option ConfigValue → List String
unfolding texts_of
events_of none = []
events_of (some (string s)) = []
events_of (some (int n)) = []
events_of (some (float64 n)) = []
events_of (some (items xs)) = texts_of xs
events_of (some (strings xs)) = xs
events_of (some other) = []

-- A constructor's result as a Listener
abbrev pub as_listener : {A : Type 0} → (A → Listener) → Fallible A → Fallible Listener
as_listener wrap (ok a) = ok (wrap a)
as_listener wrap (err e) = err e

-- newFileWatcherFromConfig
unfoldable pub new_file_watcher_from_config : ListenerFactory
unfolding string_of interval_of
new_file_watcher_from_config entry = as_listener file_watcher (
    new_file_watcher entry.name entry.pipeline (string_of (Dict.get entry.config "path"))
      (string_of (Dict.get entry.config "pattern"))
      (interval_of (Dict.get entry.config "interval")))

-- newWebhookFromConfig
unfoldable pub new_webhook_from_config : ListenerFactory
unfolding string_of events_of
new_webhook_from_config entry = as_listener webhook (
    new_webhook entry.name entry.pipeline (string_of (Dict.get entry.config "addr"))
      (events_of (Dict.get entry.config "events")))

-- listenerFactories
unfoldable pub listener_factories : Dict ListenerFactory
listener_factories =
    Dict.put (Dict.put Dict.empty "file_watcher" new_file_watcher_from_config) "webhook"
      new_webhook_from_config

-- RegisterListenerFactory
unfoldable pub register_listener_factory :
    String → ListenerFactory → Dict ListenerFactory → Dict ListenerFactory
register_listener_factory type_name factory factories = Dict.put factories type_name factory

-- What the body of the loop makes of an entry
unfoldable pub make_listener : Dict ListenerFactory → ListenerEntry → Fallible Listener
unfolding is_empty
make_listener factories entry =
    if is_empty entry.name
    then err entry_without_name
    else if is_empty entry.type
    then err (entry_without_type entry.name)
    else elim (Dict.get factories entry.type) [
      | none ↦ err (entry_unknown_type entry.name entry.type)
      | some factory ↦ elim (factory entry) [
        | err e ↦ err (entry_refused entry.name entry.type e)
        | ok l ↦ ok l
      ]
    ]

-- The variables of RegisterConfiguredListeners
pub record Registration (W : Type 0) : Type 0 where
  pub mgr : Manager W
  pub registered : ℕ
  pub errs : List GoError

module _ {W : Type 0} where
  unfoldable pub add_listener : Fallible Listener → Registration W → Registration W
  unfolding register
  add_listener (err e) r = record r { errs = r.errs ++ e ∷ [] }
  add_listener (ok l) r = record r { mgr = register l r.mgr; registered = r.registered + 1 }

  -- The loop of RegisterConfiguredListeners
  unfoldable pub register_entries :
      Dict ListenerFactory → List ListenerEntry → Registration W → Registration W
  unfolding make_listener add_listener
  register_entries factories [] r = r
  register_entries factories (e ∷ es) r =
      register_entries factories es (add_listener (make_listener factories e) r)

  -- RegisterConfiguredListeners
  unfoldable pub register_configured_listeners :
      Dict ListenerFactory → Manager W → List ListenerEntry → Registration W
  unfolding register_entries
  register_configured_listeners factories mgr entries =
      register_entries factories entries (record { mgr = mgr; registered = 0; errs = [] })
