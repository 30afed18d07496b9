-- ===== src/Listener/FileWatcher/Scan.antt =====
-- internal/listener/file_watcher.go, scan: which entries of a directory send an event.
use lp.Base.{
  ℕ, String, Bool, true, false, List, [], ◌∷◌, Option, none, some, ◌≡◌, refl, ◌∙◌, ap, map, All,
  str_eq, eq_iff, eq_refl, keep_if, arith, if◌then◌else◌,
}
use lp.Base.Dict
use lp.Base.Dict.{get-put}
use lp.Pipeline.Store.{ok}
use lp.Listener.Event.{Event}
use lp.Listener.FileWatcher.{
  WatchedEntry, Folder, FileWatcher, file_changed, is_newer, watched_time, note_entry, scan_entries,
  scan,
}

module _ (fs : Folder) (w0 : FileWatcher) where
  -- The full path of an entry
  abbrev pub path_of : WatchedEntry → String
  path_of e = fs.join w0.path e.name

  -- No two entries have the same full path.
  abbrev pub Distinct : List WatchedEntry → Type 0
  Distinct [] = Unit {0}
  Distinct (e ∷ es) = All (λ f. str_eq (path_of e) (path_of f) ≡ false) es × Distinct es

  -- The watcher looks at the entry, and has not noted it, or at an earlier time.
  abbrev pub changed_since : Option ℕ → Option ℕ → Bool
  changed_since noted none = false
  changed_since noted (some time) = is_newer noted time

  abbrev pub is_changed : FileWatcher → WatchedEntry → Bool
  is_changed w e = changed_since (Dict.get w.mod_times (path_of e)) (watched_time fs w e)

  -- A watcher of the same directory
  pub record IsSame (w : FileWatcher) : Type 0 where
    pub name : w.name ≡ w0.name
    pub path : w.path ≡ w0.path
    pub pattern : w.pattern ≡ w0.pattern
    pub pipeline : w.pipeline ≡ w0.pipeline

  note_entry-IsSame :
      (fire : Bool) (w : FileWatcher) (e : WatchedEntry) (time : Option ℕ)
      → IsSame w
      → IsSame (note_entry fs fire w e time).0
  unfolding note_entry
  note_entry-IsSame fire w e time same = ground arith

  get-note_entry :
      (fire : Bool) (w : FileWatcher) (e : WatchedEntry) (time : Option ℕ) (path : String)
      → IsSame w
      → str_eq (path_of e) path ≡ false
      → Dict.get (note_entry fs fire w e time).0.mod_times path ≡ Dict.get w.mod_times path
  unfolding note_entry
  get-note_entry fire w e none path same other = refl
  get-note_entry fire w e (some time) path same other =
      rw (same.path, get-put w.mod_times (path_of e) path time, other) refl

  -- What one entry sends, and what is noted of it
  note_entry_sends :
      (w : FileWatcher) (e : WatchedEntry) (time : Option ℕ)
      → IsSame w
      → (note_entry fs true w e time).1 ≡ (
          if changed_since (Dict.get w.mod_times (path_of e)) time
          then file_changed w0 (path_of e) e.name ∷ []
          else [])
  unfolding note_entry file_changed
  note_entry_sends w e none same = refl
  note_entry_sends w e (some time) same = rw (same.path, same.name, same.pipeline) refl

  note_entry_notes :
      (fire : Bool) (w : FileWatcher) (e : WatchedEntry) (time : Option ℕ)
      → IsSame w
      → changed_since (Dict.get (note_entry fs fire w e time).0.mod_times (path_of e)) time ≡ false
  unfolding note_entry
  note_entry_notes fire w e none same = refl
  note_entry_notes fire w e (some time) same =
      rw (same.path, get-put w.mod_times (path_of e) (path_of e) time, eq_refl (path_of e))
        (ground arith)

  watched_time-eq :
      (w v : FileWatcher) (e : WatchedEntry)
      → IsSame w
      → IsSame v
      → watched_time fs w e ≡ watched_time fs v e
  unfolding watched_time
  watched_time-eq w v e p q = ground (arith, p.pattern, q.pattern)

  -- Noting one entry leaves the others as they were.
  is_changed-note_entry :
      (fire : Bool) (w : FileWatcher) (e f : WatchedEntry) (time : Option ℕ)
      → IsSame w
      → str_eq (path_of e) (path_of f) ≡ false
      → is_changed (note_entry fs fire w e time).0 f ≡ is_changed w f
  is_changed-note_entry fire w e f time same other =
      rw
        (
          get-note_entry fire w e time (path_of f) same other,
          watched_time-eq (note_entry fs fire w e time).0 w f (note_entry-IsSame fire w e time same)
              same,
        )
        refl

  keep_if-note_entry :
      (w : FileWatcher) (e : WatchedEntry) (time : Option ℕ) (es : List WatchedEntry)
      → IsSame w
      → All (λ f. str_eq (path_of e) (path_of f) ≡ false) es
      → keep_if (is_changed (note_entry fs true w e time).0) es ≡ keep_if (is_changed w) es
  unfolding keep_if
  keep_if-note_entry w e time [] same other = refl
  keep_if-note_entry w e time (f ∷ es) same (other, others) =
      rw
        (
          is_changed-note_entry true w e f time same other,
          keep_if-note_entry w e time es same others,
        )
        refl

  abbrev pub event_of : WatchedEntry → Event
  event_of e = file_changed w0 (path_of e) e.name

  scan_entries_sends :
      (es : List WatchedEntry) (w : FileWatcher)
      → IsSame w
      → Distinct es
      → (scan_entries fs true es w).1 ≡ map event_of (keep_if (is_changed w) es)
  unfolding scan_entries keep_if
  scan_entries_sends [] w same distinct = refl
  scan_entries_sends (e ∷ es) w same (others, distinct) =
      let time : Option ℕ = watched_time fs w e in
      let w' : FileWatcher = (note_entry fs true w e time).0 in
      let rest = scan_entries_sends es w' (note_entry-IsSame true w e time same) distinct in
      ground
        (arith, rest, note_entry_sends w e time same, keep_if-note_entry w e time es same others)

  scan_entries-IsSame :
      (fire : Bool) (es : List WatchedEntry) (w : FileWatcher)
      → IsSame w
      → IsSame (scan_entries fs fire es w).0
  unfolding scan_entries
  scan_entries-IsSame fire [] w same = same
  scan_entries-IsSame fire (e ∷ es) w same =
      scan_entries-IsSame fire es (note_entry fs fire w e (watched_time fs w e)).0
        (note_entry-IsSame fire w e (watched_time fs w e) same)

  get-scan_entries :
      (fire : Bool) (es : List WatchedEntry) (w : FileWatcher) (path : String)
      → IsSame w
      → All (λ f. str_eq path (path_of f) ≡ false) es
      → Dict.get (scan_entries fs fire es w).0.mod_times path ≡ Dict.get w.mod_times path
  unfolding scan_entries
  get-scan_entries fire [] w path same other = refl
  get-scan_entries fire (e ∷ es) w path same (other, others) =
      let time : Option ℕ = watched_time fs w e in
      let w' : FileWatcher = (note_entry fs fire w e time).0 in
      get-scan_entries fire es w' path (note_entry-IsSame fire w e time same) others
      ∙ get-note_entry fire w e time path same
          (ground (arith, other, eq_iff (path_of e) path, eq_iff path (path_of e)))

  scan_entries_settles :
      (fire : Bool) (es : List WatchedEntry) (w : FileWatcher)
      → IsSame w
      → Distinct es
      → All (λ e. is_changed (scan_entries fs fire es w).0 e ≡ false) es
  unfolding scan_entries
  scan_entries_settles fire [] w same distinct = tt
  scan_entries_settles fire (e ∷ es) w same (others, distinct) =
      let time : Option ℕ = watched_time fs w e in
      let w' : FileWatcher = (note_entry fs fire w e time).0 in
      let same' : IsSame w' = note_entry-IsSame fire w e time same in
      let after : FileWatcher = (scan_entries fs fire es w').0 in
      (
        rw
            (
              get-scan_entries fire es w' (path_of e) same' others,
              watched_time-eq after w e (scan_entries-IsSame fire es w' same') same,
            )
            (note_entry_notes fire w e time same),
        scan_entries_settles fire es w' same' distinct,
      )

  keep_if_none :
      (p : WatchedEntry → Bool) (es : List WatchedEntry)
      → All (λ e. p e ≡ false) es
      → keep_if p es ≡ []
  unfolding keep_if
  keep_if_none p [] h = refl
  keep_if_none p (e ∷ es) (h, hs) = rw (h, keep_if_none p es hs) refl

  initial : IsSame w0
  initial = record { name = refl; path = refl; pattern = refl; pipeline = refl }

  scan_listed :
      (fire : Bool) (w : FileWatcher) (es : List WatchedEntry)
      → fs.read_dir w.path ≡ ok es
      → scan fs fire w ≡ ((scan_entries fs fire es w).0, (scan_entries fs fire es w).1, none)
  unfolding scan
  scan_listed fire w es listed = ground (arith, listed)

  -- On a directory whose entries have different full paths, scan sends one event for each entry, in
  -- order, that is no directory, matches the pattern, has a modification time, and was not noted
  -- before or at an earlier time, and no other; it returns no error; and a scan of the same entries
  -- after it, or after the initial scan, sends nothing.
  pub scan_lem :
      (fire : Bool) (es : List WatchedEntry)
      → fs.read_dir w0.path ≡ ok es
      → Distinct es
      → ((scan fs true w0).1 ≡ map event_of (keep_if (is_changed w0) es))
        × ((scan fs true w0).2 ≡ none)
        × ((scan fs true (scan fs fire w0).0).1 ≡ [])
  scan_lem fire es listed distinct =
      let again : FileWatcher = (scan_entries fs fire es w0).0 in
      let same : IsSame again = scan_entries-IsSame fire es w0 initial in
      let listed' : fs.read_dir again.path ≡ ok es = ap fs.read_dir same.path ∙ listed in
      let silent =
        scan_entries_sends es again same distinct
        ∙ ap (map event_of) (
            keep_if_none (is_changed again) es
              (scan_entries_settles fire es w0 initial distinct)) in
      (
        rw (scan_listed true w0 es listed) (scan_entries_sends es w0 initial distinct),
        rw (scan_listed true w0 es listed) refl,
        rw (scan_listed fire w0 es listed, scan_listed true again es listed') silent,
      )
