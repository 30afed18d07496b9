-- ===== src/Server/Listeners/Tests.antt =====
-- The listeners of a configuration with a webhook, a watcher without a path and an unknown type.
use lp.Base.{ℕ, String, List, [], ◌∷◌, ◌++◌, arith, some, none, All, length, ◌≡◌, refl}
use lp.Base.Dict
use lp.Base.Dict.{Dict}
use lp.Errors.{entry_refused, entry_unknown_type, missing_path}
use lp.Listener.Manager.{Manager, new_manager}
use lp.Server.Configuration.{ConfigValue, string, items, ListenerEntry}
use lp.Listener.FileWatcher.{new_file_watcher}
use lp.Listener.Webhook.{new_webhook}
use lp.Server.Listeners.{
  new_file_watcher_from_config, new_webhook_from_config, listener_factories,
  register_configured_listeners, interval_of,
}
use lp.Server.Listeners.Registered.{
  IsUsable, HasNoNegative, listeners_of, errors_of, made_of, registered-IsUsable,
}

abbrev entry : String → String → Dict ConfigValue → ListenerEntry
entry type name config = record { type = type; name = name; pipeline = "build"; config = config }

abbrev entries : List ListenerEntry
entries =
    entry "webhook" "hook" (
      Dict.put (Dict.put Dict.empty "addr" (string ":9090")) "events"
        (items (some "push" ∷ none ∷ [])))
    ∷ entry "file_watcher" "watch" Dict.empty
    ∷ entry "cron" "nightly" Dict.empty
    ∷ []

abbrev mgr : Manager ℕ
mgr = new_manager 64

no_listeners : All IsUsable mgr.listeners
unfolding new_manager
no_listeners = tt

none_negative : All HasNoNegative entries
unfolding Dict.get Dict.put Dict.empty interval_of
none_negative = (omega arith, (omega arith, (omega arith, tt)))

registered-IsUsable_example :
    let r = register_configured_listeners listener_factories mgr entries in
    (r.mgr.listeners ≡ mgr.listeners ++ listeners_of (made_of entries))
    × (r.errs ≡ errors_of (made_of entries))
    × (r.registered ≡ length (listeners_of (made_of entries)))
    × All IsUsable r.mgr.listeners
registered-IsUsable_example = registered-IsUsable mgr entries no_listeners none_negative

two_refused :
    (register_configured_listeners listener_factories mgr entries).errs
    ≡ entry_refused "watch" "file_watcher" missing_path ∷ entry_unknown_type "nightly" "cron" ∷ []
unfolding register_configured_listeners listener_factories Dict.get Dict.put Dict.empty
    new_file_watcher_from_config new_webhook_from_config new_file_watcher new_webhook
two_refused = refl
