-- ===== src/Server/Listeners/Registered.antt =====
-- cmd/server/listeners.go: what RegisterConfiguredListeners registers and reports.
use mathlib.Core.Path.{subst}
use mathlib.Core.List.{append-nil, append_assoc}
use lp.Errors.{GoError}
use lp.Base.{
  ℕ, ◌+◌, String, Bool, true, false, List, [], ◌∷◌, ◌++◌, map, ◌^◌, none, some, ◌≡◌, ◌<◌, ◌==◌,
  refl, ◌∙◌, sym, inl, inr, All, All-append, Option-cases, Bool-cases, length, is_empty, str_eq,
  arith, if◌then◌else◌,
}
use lp.Base.Dict
use lp.Base.Dict.{Dict, get-put, get-empty}
use lp.Pipeline.Store.{Fallible, ok, err}
use lp.Listener.FileWatcher.{FileWatcher, default_interval, new_file_watcher}
use lp.Listener.Webhook.{Webhook, new_webhook}
use lp.Listener.Manager.{Listener, file_watcher, webhook, Manager}
use lp.Server.Configuration.{ListenerEntry}
use lp.Server.Listeners.{
  ListenerFactory, Registration, new_file_watcher_from_config, new_webhook_from_config,
  listener_factories, make_listener, interval_of, as_listener, add_listener, register_entries,
  register_configured_listeners,
}

-- A listener with a name, that has not been stopped, and that knows where to listen; a watcher has a
-- pattern and an interval that time.NewTicker takes, a positive one as a signed number.
abbrev pub IsUsable : Listener → Type 0
IsUsable (file_watcher w) =
    (is_empty w.name ≡ false)
    × (is_empty w.path ≡ false)
    × (is_empty w.pattern ≡ false)
    × (0 < w.interval)
    × (w.interval < 2 ^ 63)
    × (w.done ≡ false)
IsUsable (webhook w) = (is_empty w.name ≡ false) × (is_empty w.addr ≡ false) × (w.done ≡ false)

some_pattern : (pattern : String) → is_empty (if is_empty pattern then "*" else pattern) ≡ false
unfolding is_empty
some_pattern pattern = elim (Bool-cases (is_empty pattern)) [ inl e ↦ rw e refl | inr e ↦ rw e e ]

-- The interval of an entry, in nanoseconds as an int64, is not negative.
abbrev pub HasNoNegative : ListenerEntry → Type 0
HasNoNegative entry = interval_of (Dict.get entry.config "interval") < 2 ^ 63

some_interval :
    (n : ℕ) → n < 2 ^ 63 → let i = if n == 0 then default_interval else n in (0 < i) × (i < 2 ^ 63)
some_interval n h = ground (arith, h)

new_file_watcher-IsUsable :
    (name pipeline path pattern : String) (interval : ℕ) (w : FileWatcher)
    → is_empty name ≡ false
    → interval < 2 ^ 63
    → new_file_watcher name pipeline path pattern interval ≡ ok w
    → IsUsable (file_watcher w)
unfolding new_file_watcher
new_file_watcher-IsUsable name pipeline path pattern interval w named positive made =
    ground (arith, some_pattern pattern, some_interval interval positive)

new_webhook-IsUsable :
    (name pipeline addr : String) (events : List String) (w : Webhook)
    → is_empty name ≡ false
    → new_webhook name pipeline addr events ≡ ok w
    → IsUsable (webhook w)
unfolding new_webhook
new_webhook-IsUsable name pipeline addr events w named made = ground arith

-- A factory whose listeners are usable for an entry with a name
abbrev IsSound : ListenerFactory → Type 0
IsSound factory =
    (entry : ListenerEntry) (l : Listener)
    → is_empty entry.name ≡ false
    → HasNoNegative entry
    → factory entry ≡ ok l
    → IsUsable l

as_listener-ok :
    {A : Type 0} (wrap : A → Listener) (made : Fallible A) (l : Listener)
    → as_listener wrap made ≡ ok l
    → (a : A) × (made ≡ ok a) × (wrap a ≡ l)
as_listener-ok wrap (ok a) l h = (a, refl, cc)
as_listener-ok wrap (err e) l h = cc

new_file_watcher_from_config-IsSound : IsSound new_file_watcher_from_config
unfolding new_file_watcher_from_config
new_file_watcher_from_config-IsSound entry l named positive made =
    let (w, e, same) = as_listener-ok file_watcher _ l made in
    subst IsUsable same (new_file_watcher-IsUsable _ _ _ _ _ w named positive e)

new_webhook_from_config-IsSound : IsSound new_webhook_from_config
unfolding new_webhook_from_config
new_webhook_from_config-IsSound entry l named positive made =
    let (w, e, same) = as_listener-ok webhook _ l made in
    subst IsUsable same (new_webhook-IsUsable _ _ _ _ w named e)

made-IsUsable :
    (factories : Dict ListenerFactory) (entry : ListenerEntry) (l : Listener)
    → ((type : String) (factory : ListenerFactory)
        → Dict.get factories type ≡ some factory
        → IsSound factory)
    → HasNoNegative entry
    → make_listener factories entry ≡ ok l
    → IsUsable l
unfolding make_listener
made-IsUsable factories entry l sound positive made =
    let named : is_empty entry.name ≡ false = ground arith in
    elim (Option-cases (Dict.get factories entry.type)) [
      | inl missing ↦ absurd (ground (arith, missing))
      | inr (factory, known) ↦
          sound entry.type factory known entry l named positive (ground (arith, known))
    ]

some_inj : {A : Type 0} {a b : A} → some a ≡ some b → a ≡ b
some_inj h = cc

none-ne-some : {A : Type 0} {a : A} → none ≡ some a → ⊥
none-ne-some h = cc

get-listener_factories :
    (type : String)
    → Dict.get listener_factories type ≡ (
        if str_eq "webhook" type
        then some new_webhook_from_config
        else if str_eq "file_watcher" type
        then some new_file_watcher_from_config
        else none)
unfolding listener_factories
get-listener_factories type = ground (
  arith,
  get-put (Dict.put Dict.empty "file_watcher" new_file_watcher_from_config) "webhook" type
      new_webhook_from_config,
  get-put Dict.empty "file_watcher" type new_file_watcher_from_config,
  get-empty {V = ListenerFactory} type,
)

listener_factories-IsSound :
    (type : String) (factory : ListenerFactory)
    → Dict.get listener_factories type ≡ some factory
    → IsSound factory
listener_factories-IsSound type factory h =
    choose (str_eq "webhook" type) (str_eq "file_watcher" type)
      (sym (get-listener_factories type) ∙ h)
  where
    choose :
        (hook watcher : Bool)
        → (if hook
            then some new_webhook_from_config
            else if watcher
            then some new_file_watcher_from_config
            else none)
          ≡ some factory
        → IsSound factory
    choose true watcher e = subst IsSound (some_inj e) new_webhook_from_config-IsSound
    choose false true e = subst IsSound (some_inj e) new_file_watcher_from_config-IsSound
    choose false false e = absurd (none-ne-some e)

-- The listeners that are made of the entries, and the errors of the others, in order
unfoldable pub listeners_of : List (Fallible Listener) → List Listener
listeners_of [] = []
listeners_of (ok l ∷ rest) = l ∷ listeners_of rest
listeners_of (err e ∷ rest) = listeners_of rest

unfoldable pub errors_of : List (Fallible Listener) → List GoError
errors_of [] = []
errors_of (ok l ∷ rest) = errors_of rest
errors_of (err e ∷ rest) = e ∷ errors_of rest

abbrev pub made_of : List ListenerEntry → List (Fallible Listener)
made_of entries = map (make_listener listener_factories) entries

module _ {W : Type 0} where
  -- The listeners and errors of the entries behind those that are there
  IsGathered : List (Fallible Listener) → Registration W → Registration W → Type 0
  IsGathered made r t =
      (t.mgr.listeners ≡ r.mgr.listeners ++ listeners_of made)
      × (t.errs ≡ r.errs ++ errors_of made)
      × (t.registered ≡ r.registered + length (listeners_of made))

  IsGathered-add_listener :
      (x : Fallible Listener) (made : List (Fallible Listener)) (r t : Registration W)
      → IsGathered made (add_listener x r) t
      → IsGathered (x ∷ made) r t
  unfolding IsGathered add_listener listeners_of errors_of
  IsGathered-add_listener (ok l) made r t (ls, es, n) =
      (ls ∙ append_assoc r.mgr.listeners (l ∷ []) (listeners_of made), es, omega (arith, n))
  IsGathered-add_listener (err e) made r t (ls, es, n) =
      (ls, es ∙ append_assoc r.errs (e ∷ []) (errors_of made), n)

  register_entries-IsGathered :
      (entries : List ListenerEntry) (r : Registration W)
      → IsGathered (made_of entries) r (register_entries listener_factories entries r)
  unfolding IsGathered register_entries listeners_of errors_of
  register_entries-IsGathered [] r =
      (sym (append-nil r.mgr.listeners), sym (append-nil r.errs), omega arith)
  register_entries-IsGathered (e ∷ es) r =
      IsGathered-add_listener (make_listener listener_factories e) (made_of es) r
        (register_entries listener_factories (e ∷ es) r)
        (register_entries-IsGathered es (add_listener (make_listener listener_factories e) r))

first-IsUsable :
    (x : Fallible Listener) (rest : List (Fallible Listener))
    → ((l : Listener) → x ≡ ok l → IsUsable l)
    → All IsUsable (listeners_of rest)
    → All IsUsable (listeners_of (x ∷ rest))
unfolding listeners_of
first-IsUsable (ok l) rest usable others = (usable l refl, others)
first-IsUsable (err e) rest usable others = others

listeners_of-IsUsable :
    (entries : List ListenerEntry)
    → All HasNoNegative entries
    → All IsUsable (listeners_of (made_of entries))
unfolding listeners_of
listeners_of-IsUsable [] h = tt
listeners_of-IsUsable (e ∷ es) (positive, rest) =
    first-IsUsable (make_listener listener_factories e) (made_of es)
      (λ l made. made-IsUsable listener_factories e l listener_factories-IsSound positive made)
      (listeners_of-IsUsable es rest)

-- With the factories of the program, RegisterConfiguredListeners adds behind the listeners of the
-- manager, in the order of the entries, the listener of each entry of which one is made, returns
-- their number, and returns the error of each other entry, in their order. If no entry has a
-- negative interval, and all listeners of the manager were usable, all still are: each has a name,
-- has not been stopped, and knows where to listen, and a watcher has a pattern and a positive interval.
pub registered-IsUsable :
    {W : Type 0} (mgr : Manager W) (entries : List ListenerEntry)
    → All IsUsable mgr.listeners
    → All HasNoNegative entries
    → let r = register_configured_listeners listener_factories mgr entries in
      (r.mgr.listeners ≡ mgr.listeners ++ listeners_of (made_of entries))
      × (r.errs ≡ errors_of (made_of entries))
      × (r.registered ≡ length (listeners_of (made_of entries)))
      × All IsUsable r.mgr.listeners
unfolding register_configured_listeners IsGathered
registered-IsUsable {W} mgr entries old positive =
    let (added, reported, counted) =
      register_entries-IsGathered entries (record { mgr = mgr; registered = 0; errs = [] }) in
    (
      added,
      reported,
      omega (arith, counted),
      subst (All IsUsable) (sym added) (
          All-append IsUsable mgr.listeners (listeners_of (made_of entries)) old
            (listeners_of-IsUsable entries positive)),
    )
