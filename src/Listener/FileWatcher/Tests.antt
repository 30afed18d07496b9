-- ===== src/Listener/FileWatcher/Tests.antt =====
-- The file watcher on a directory with a new file, a changed one and one that was seen.
use lp.Base.{
  ℕ, String, true, false, List, [], ◌∷◌, some, none, ◌≡◌, refl, map, keep_if, str_eq, if◌then◌else◌,
}
use lp.Base.Dict
use lp.Errors.{external}
use lp.Pipeline.Store.{ok, err}
use lp.Listener.FileWatcher.{
  WatchedEntry, Folder, FileWatcher, ticked, scan, start_watcher, bad_interval,
}
use lp.Listener.FileWatcher.Scan.{event_of, is_changed, scan_lem}

abbrev entry : String → ℕ → WatchedEntry
entry name time = record { name = name; is_dir = false; mod_time = some time }

abbrev entries : List WatchedEntry
entries = entry "new" 5 ∷ entry "changed" 5 ∷ entry "seen" 3 ∷ []

abbrev folder : Folder
folder = record {
  read_dir = λ dir. if str_eq dir "in" then ok entries else err (external "no such directory");
  matches = λ pattern name. str_eq pattern "*";
  join = λ dir name. name;
}

abbrev watcher : FileWatcher
watcher = record {
  name = "w";
  path = "in";
  pattern = "*";
  pipeline = "build";
  interval = 1000;
  done = false;
  mod_times = Dict.put (Dict.put Dict.empty "changed" 4) "seen" 3;
}

scan_lem_example :
    ((scan folder true watcher).1
      ≡ map (event_of folder watcher) (keep_if (is_changed folder watcher watcher) entries))
    × ((scan folder true watcher).2 ≡ none)
    × ((scan folder true (scan folder false watcher).0).1 ≡ [])
scan_lem_example =
    scan_lem folder watcher false entries refl ((refl, (refl, tt)), ((refl, tt), (tt, tt)))

-- The initial scan is silent, and a negative interval makes the ticker panic.
quiet_start : (start_watcher folder (ticked folder ∷ []) watcher).1 ≡ []
unfolding start_watcher Dict.get Dict.put
quiet_start = refl

negative_interval :
    (start_watcher folder [] (record watcher { interval = 0xffffffffc4653600 })).2 ≡ bad_interval
unfolding start_watcher
negative_interval = refl
