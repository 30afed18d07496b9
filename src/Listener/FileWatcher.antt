-- ===== src/Listener/FileWatcher.antt =====
-- internal/listener/file_watcher.go: a listener that polls a directory. The file system and
-- filepath.Match are parameters; a time is a number. A duration is an int64 in nanoseconds, by its
-- bit pattern below 2 ^ 64.
pub mod Scan
mod Tests
use lp.Base.{
  ℕ, ◌*◌, String, Bool, true, false, List, [], ◌∷◌, ◌++◌, Option, none, some, ◌==◌, ltb, leb, ◌^◌,
  ◌||◌, is_empty, if◌then◌else◌,
}
use lp.Base.Dict.{Dict}
use lp.Base.Dict
use lp.Errors.{GoError, missing_path, reading_directory, watcher_scan}
use lp.Pipeline.Store.{Fallible, ok, err}
use lp.Listener.Event.{Event, text}

-- An entry that os.ReadDir lists, and the modification time that its Info() tells, none for an error.
pub record WatchedEntry : Type 0 where
  pub name : String
  pub is_dir : Bool
  pub mod_time : Option ℕ

-- os.ReadDir, filepath.Match (a bad pattern matches nothing) and filepath.Join
pub record Folder : Type 0 where
  pub read_dir : String → Fallible (List WatchedEntry)
  pub matches : String → String → Bool
  pub join : String → String → String

-- FileWatcher; `done` says whether the channel is closed.
pub record FileWatcher : Type 0 where
  pub name : String
  pub path : String
  pub pattern : String
  pub pipeline : String
  pub interval : ℕ
  pub done : Bool
  pub mod_times : Dict ℕ

-- 2 * time.Second
abbrev pub default_interval : ℕ
default_interval = 2000000000

-- NewFileWatcher
unfoldable pub new_file_watcher : String → String → String → String → ℕ → Fallible FileWatcher
unfolding is_empty
new_file_watcher name pipeline path pattern interval =
    if is_empty path
    then err missing_path
    else ok (record {
      name = name;
      path = path;
      pattern = if is_empty pattern then "*" else pattern;
      pipeline = pipeline;
      interval = if interval == 0 then default_interval else interval;
      done = false;
      mod_times = Dict.empty;
    })

-- Stop: the error that it returns is always nil.
unfoldable pub stop_watcher : FileWatcher → FileWatcher
stop_watcher w = record w { done = true }

-- The event of a changed file
unfoldable pub file_changed : FileWatcher → String → String → Event
file_changed w full_path name = record {
  listener = w.name;
  trigger = "file_changed";
  pipeline = w.pipeline;
  payload = ("path", text full_path) ∷ ("file", text name) ∷ [];
}

-- !seen || info.ModTime().After(prevMod)
abbrev pub is_newer : Option ℕ → ℕ → Bool
is_newer none now = true
is_newer (some prev) now = ltb prev now

module _ (fs : Folder) where
  -- The guards of the loop: the modification time of an entry that is looked at.
  unfoldable pub watched_time : FileWatcher → WatchedEntry → Option ℕ
  watched_time w e =
      if e.is_dir then none else if fs.matches w.pattern e.name then e.mod_time else none

  -- What the loop does with an entry that passed its guards. `fire` is `events != nil`.
  unfoldable pub note_entry :
      Bool → FileWatcher → WatchedEntry → Option ℕ → FileWatcher × List Event
  unfolding file_changed
  note_entry fire w e none = (w, [])
  note_entry fire w e (some time) =
      let full_path : String = fs.join w.path e.name in
      (
        record w { mod_times = Dict.put w.mod_times full_path time },
        if fire
            then (if is_newer (Dict.get w.mod_times full_path) time
                then file_changed w full_path e.name ∷ []
                else [])
            else [],
      )

  -- The loop of scan: the watcher and the events sent, in order
  unfoldable pub scan_entries : Bool → List WatchedEntry → FileWatcher → FileWatcher × List Event
  unfolding watched_time note_entry
  scan_entries fire [] w = (w, [])
  scan_entries fire (e ∷ es) w =
      let (w', sent) = note_entry fire w e (watched_time w e) in
      let (w'', more) = scan_entries fire es w' in (w'', sent ++ more)

  -- scan: the error, if any, after the watcher and the events sent
  unfoldable pub scan : Bool → FileWatcher → FileWatcher × List Event × Option GoError
  unfolding scan_entries
  scan fire w = elim (fs.read_dir w.path) [
    | err e ↦ (w, [], some (reading_directory w.path e))
    | ok entries ↦ let (w', sent) = scan_entries fire entries w in (w', sent, none)
  ]

-- What the select of Start waits for.
pub data Tick : Type 0 where
  cancelled stopped : Tick
  -- a tick, with the file system that the scan sees
  ticked : Folder → Tick

-- How Start ends: it returns, time.NewTicker panics on an interval that is not positive, or the
-- loop still waits.
pub data WatcherEnd : Type 0 where
  returned : Option GoError → WatcherEnd
  bad_interval waiting : WatcherEnd

-- The loop of Start over what happens, with the events that it sends
unfoldable pub watch : List Tick → FileWatcher → FileWatcher × List Event × WatcherEnd
unfolding scan
watch [] w = (w, [], waiting)
watch (cancelled ∷ ticks) w = (w, [], returned none)
watch (stopped ∷ ticks) w = (w, [], returned none)
watch (ticked fs ∷ ticks) w =
    let (w', sent, failed) = scan fs true w in
    let (w'', more, end) = watch ticks w' in
    elim failed [
      | some e ↦ (w', sent, returned (some (watcher_scan w.name e)))
      | none ↦ (w'', sent ++ more, end)
    ]

-- Start: `fs` is the file system at the start.
unfoldable pub start_watcher :
    Folder → List Tick → FileWatcher → FileWatcher × List Event × WatcherEnd
unfolding scan watch
start_watcher fs ticks w =
    let w' : FileWatcher = (scan fs false w).0 in
    if w.interval == 0 || leb (2 ^ 63) w.interval then (w', [], bad_interval) else watch ticks w'
