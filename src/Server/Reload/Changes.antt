-- ===== src/Server/Reload/Changes.antt =====
-- cmd/server/server.go: when the polling of the directories reloads the pipelines, and what it changes.
use lp.Base.{
  ℕ, String, true, false, List, [], ◌∷◌, ◌++◌, Option, none, some, ◌≡◌, ◌↔◌, ◌⊎◌, inl, inr, refl,
  sym, ◌∙◌, ap, Elem, Bool-cases, arith,
}
use lp.Base.Dict.{Dict, IsOrder}
use lp.Base.Dict
use lp.Base.Dict.Sizes.{IsUnique, empty-IsUnique, put-IsUnique, get-eq_of_size, size-eq}
use lp.Pipeline.Store.{Fallible, ok, err}
use lp.Server.State.{Server, print, prefix_info}
use lp.Server.Loading.{DirEntry, is_pipeline_file, reload_pipelines}
use lp.Server.Reload.Report.{reload_event, reload_entries_of, report_reload_lem}
use lp.Server.Reload.{
  Polled, add_time, snapshot_entry, snapshot_entries, snapshot_directory, snapshot_directories,
  snapshot_pipeline_files, differs, any_differs, pipeline_files_changed, PollTick, Watch, reload,
  reload_round,
}

module _ (fs : Polled) where
  add_time-IsUnique :
      (dir name : String) (time : Option ℕ) (snapshot : Dict ℕ)
      → IsUnique snapshot
      → IsUnique (add_time fs dir name time snapshot)
  unfolding add_time
  add_time-IsUnique dir name none snapshot u = u
  add_time-IsUnique dir name (some time) snapshot u =
      put-IsUnique snapshot (fs.files.join dir name) time u

  snapshot_entry-IsUnique :
      (dir : String) (e : DirEntry) (snapshot : Dict ℕ)
      → IsUnique snapshot
      → IsUnique (snapshot_entry fs dir e snapshot)
  unfolding snapshot_entry
  snapshot_entry-IsUnique dir e snapshot u = elim (Bool-cases (is_pipeline_file e)) [
    | inl wanted ↦ rw wanted (add_time-IsUnique dir e.name (fs.mod_time dir e.name) snapshot u)
    | inr skipped ↦ rw skipped u
  ]

  snapshot_entries-IsUnique :
      (dir : String) (es : List DirEntry) (snapshot : Dict ℕ)
      → IsUnique snapshot
      → IsUnique (snapshot_entries fs dir es snapshot)
  unfolding snapshot_entries
  snapshot_entries-IsUnique dir [] snapshot u = u
  snapshot_entries-IsUnique dir (e ∷ es) snapshot u =
      snapshot_entries-IsUnique dir es _ (snapshot_entry-IsUnique dir e snapshot u)

  snapshot_directory-IsUnique :
      (dir : String) (listed : Fallible (List DirEntry)) (snapshot : Dict ℕ)
      → IsUnique snapshot
      → IsUnique (snapshot_directory fs dir listed snapshot)
  unfolding snapshot_directory
  snapshot_directory-IsUnique dir (err e) snapshot u = u
  snapshot_directory-IsUnique dir (ok es) snapshot u = snapshot_entries-IsUnique dir es snapshot u

  snapshot_directories-IsUnique :
      (dirs : List String) (snapshot : Dict ℕ)
      → IsUnique snapshot
      → IsUnique (snapshot_directories fs dirs snapshot)
  unfolding snapshot_directories
  snapshot_directories-IsUnique [] snapshot u = u
  snapshot_directories-IsUnique (dir ∷ dirs) snapshot u =
      snapshot_directories-IsUnique dirs _
        (snapshot_directory-IsUnique dir (fs.files.read_dir dir) snapshot u)

  -- A snapshot has each path once.
  pub snapshot_pipeline_files-IsUnique :
      (dirs : List String) → IsUnique (snapshot_pipeline_files fs dirs)
  unfolding snapshot_pipeline_files
  snapshot_pipeline_files-IsUnique dirs =
      snapshot_directories-IsUnique dirs Dict.empty empty-IsUnique

true-ne-false : true ≡ false → ⊥
true-ne-false h = cc

differs-false : (o : Option ℕ) (time : ℕ) → differs o time ≡ false → o ≡ some time
differs-false none time h = cc
differs-false (some prev) time h = ground arith

differs-same : (o : Option ℕ) (time : ℕ) → o ≡ some time → differs o time ≡ false
differs-same o time h = rw h (ground arith)

any_differs-false :
    (old : Dict ℕ) (order : List (String × ℕ))
    → any_differs old order ≡ false
    → (path : String) (time : ℕ) → Elem (path, time) order
    → Dict.get old path ≡ some time
unfolding any_differs
any_differs-false old [] h path time m = absurd m
any_differs-false old ((p, t) ∷ rest) h path time (inl e) = ground (
  arith,
  differs-false (Dict.get old p) t,
  ap (λ (x : String × ℕ). Dict.get old x.0) e,
  ap (λ (x : String × ℕ). x.1) e,
)
any_differs-false old ((p, t) ∷ rest) h path time (inr m) =
    any_differs-false old rest (ground arith) path time m

any_differs-agrees :
    (old : Dict ℕ) (order : List (String × ℕ))
    → ((path : String) (time : ℕ) → Elem (path, time) order → Dict.get old path ≡ some time)
    → any_differs old order ≡ false
unfolding any_differs
any_differs-agrees old [] h = refl
any_differs-agrees old ((p, t) ∷ rest) h =
    rw
      (
        differs-same (Dict.get old p) t (h p t (inl refl)),
        any_differs-agrees old rest (λ path time m. h path time (inr m)),
      )
      refl

module _ (old current : Dict ℕ) (order : List (String × ℕ)) (old_unique : IsUnique old)
    (current_unique : IsUnique current) (is_order : IsOrder order current) where
  unchanged-same :
      pipeline_files_changed order old current ≡ false
      → (path : String) → Dict.get old path ≡ Dict.get current path
  unfolding pipeline_files_changed
  unchanged-same h =
      get-eq_of_size current old current_unique old_unique (ground arith) (λ path time stored.
        any_differs-false old order (ground arith) path time (is_order.complete path time stored))

  same-unchanged :
      ((path : String) → Dict.get old path ≡ Dict.get current path)
      → pipeline_files_changed order old current ≡ false
  unfolding pipeline_files_changed
  same-unchanged h = ground (
    arith,
    size-eq old current old_unique current_unique h,
    any_differs-agrees old order (λ path time m. h path ∙ is_order.sound path time m),
  )

-- In whatever order the map is visited, pipelineFilesChanged finds no change between two snapshots
-- exactly if they have the same files with the same times.
pub pipeline_files_changed_lem :
    (before after : Polled) (dirs : List String) (order : List (String × ℕ))
    → IsOrder order (snapshot_pipeline_files after dirs)
    → (pipeline_files_changed order
          (snapshot_pipeline_files before dirs)
          (snapshot_pipeline_files after dirs)
        ≡ false)
      ↔ ((path : String)
          → Dict.get (snapshot_pipeline_files before dirs) path
            ≡ Dict.get (snapshot_pipeline_files after dirs) path)
pipeline_files_changed_lem before after dirs order is_order =
    let old_unique = snapshot_pipeline_files-IsUnique before dirs in
    let current_unique = snapshot_pipeline_files-IsUnique after dirs in
    (
      unchanged-same _ _ order old_unique current_unique is_order,
      same-unchanged _ _ order old_unique current_unique is_order,
    )

-- The files that are noted and those that a tick sees are the same, with the same times.
abbrev pub AreSame : List String → PollTick → Watch → Type 0
AreSame dirs tick w =
    (path : String)
    → Dict.get w.mod_times path ≡ Dict.get (snapshot_pipeline_files tick.fs dirs) path

-- What a reload changes
reload_lem :
    (dirs : List String) (tick : PollTick) (current : Dict ℕ) (w : Watch)
    → let after = reload dirs tick current w in
      let reloaded =
        reload_pipelines tick.fs.files tick.pipeline_order dirs w.server.tracked.store w.next in
      (after.server.tracked ≡ record w.server.tracked { store = reloaded.0 })
      × (after.server.broadcasts ≡ w.server.broadcasts ++ (reload_event tick.now reloaded.1 ∷ []))
      × (after.server.ledger.entries
          ≡ w.server.ledger.entries ++ reload_entries_of tick.now reloaded.1 reloaded.2)
      × (after.mod_times ≡ current)
unfolding reload print
reload_lem dirs tick current w =
    let (store, loaded, errs) =
      reload_pipelines tick.fs.files tick.pipeline_order dirs w.server.tracked.store w.next in
    let s : Server = print prefix_info "pipeline files changed, reloading..." [] w.server in
    let (kept, told, logged) =
      report_reload_lem tick.now loaded errs
        (record s { tracked = record s.tracked { store = store } }) in
    (kept, told, logged, refl)

reload_round_changed :
    (dirs : List String) (tick : PollTick) (w : Watch)
    → pipeline_files_changed tick.snapshot_order w.mod_times (snapshot_pipeline_files tick.fs dirs)
      ≡ true
    → let after = reload_round dirs tick w in
      let reloaded =
        reload_pipelines tick.fs.files tick.pipeline_order dirs w.server.tracked.store w.next in
      (after.server.tracked ≡ record w.server.tracked { store = reloaded.0 })
      × (after.server.broadcasts ≡ w.server.broadcasts ++ (reload_event tick.now reloaded.1 ∷ []))
      × (after.server.ledger.entries
          ≡ w.server.ledger.entries ++ reload_entries_of tick.now reloaded.1 reloaded.2)
      × (after.mod_times ≡ snapshot_pipeline_files tick.fs dirs)
unfolding reload_round
reload_round_changed dirs tick w changed =
    rw changed (reload_lem dirs tick (snapshot_pipeline_files tick.fs dirs) w)

-- A tick that sees the files and times that are noted changes nothing. Any other replaces the
-- pipelines by those of a reload, leaves the active runs, broadcasts one event that tells of the
-- reload and of the number of pipelines, writes to the ledger an entry with the numbers of pipelines and
-- of errors and behind it an error entry with each error of the reload, in order, and notes the
-- files that it saw.
pub reload_round_lem :
    (dirs : List String) (tick : PollTick) (w : Watch)
    → IsUnique w.mod_times
    → IsOrder tick.snapshot_order (snapshot_pipeline_files tick.fs dirs)
    → let after = reload_round dirs tick w in
      let reloaded =
        reload_pipelines tick.fs.files tick.pipeline_order dirs w.server.tracked.store w.next in
      (AreSame dirs tick w × (after ≡ w))
      ⊎ ((¬ AreSame dirs tick w)
          × (after.server.tracked ≡ record w.server.tracked { store = reloaded.0 })
          × (after.server.broadcasts
              ≡ w.server.broadcasts ++ (reload_event tick.now reloaded.1 ∷ []))
          × (after.server.ledger.entries
              ≡ w.server.ledger.entries ++ reload_entries_of tick.now reloaded.1 reloaded.2)
          × (after.mod_times ≡ snapshot_pipeline_files tick.fs dirs))
reload_round_lem dirs tick w unique is_order =
    let current : Dict ℕ = snapshot_pipeline_files tick.fs dirs in
    let current_unique = snapshot_pipeline_files-IsUnique tick.fs dirs in
    elim (Bool-cases (pipeline_files_changed tick.snapshot_order w.mod_times current)) [
      | inl changed ↦
          let (tracked, told, logged, noted) = reload_round_changed dirs tick w changed in
          inr (
            λ same. true-ne-false (
                sym changed
                ∙ same-unchanged w.mod_times current tick.snapshot_order unique current_unique
                    is_order same),
            tracked,
            told,
            logged,
            noted,
          )
      | inr unchanged ↦ inl (
        unchanged-same w.mod_times current tick.snapshot_order unique current_unique is_order
            unchanged,
        (unfold reload_round in rw unchanged refl),
      )
    ]
