-- ===== src/Server/Api/Answers.antt =====
-- cmd/server/api.go: what the handlers answer.
use lp.Base.{
  ℕ, String, Bool, false, List, [], ◌∷◌, ◌++◌, none, some, ◌||◌, map, length, length-map, keep_if,
  ◌≡◌, ◌≢◌, refl, ◌∙◌, ap, ◌⊎◌, inl, inr, Option-cases, Bool-cases, str_eq, eq_iff, eq_refl,
  is_empty, arith, if◌then◌else◌,
}
use lp.Base.Dict
use lp.Base.Dict.{IsOrder}
use lp.Errors.{pipeline_name_not_found}
use lp.Logging.{Entry, Ledger, by_category, level_string}
use lp.Logging
use lp.Pipeline.Definition.{PipelineDef}
use lp.Pipeline.Run.{Run}
use lp.Pipeline.Store.{Store, ok, get_pipeline_by_name, find_by_name, create_run, runs_for}
use lp.Pipeline.Store.Runs.{IsIndexed, find_by_name-none, find_by_name_sound, create_run_lem}
use lp.Server.Api.{
  ApiRequest, ApiServer, ApiAnswer, EntryJson, method_not_allowed, write_json, history,
  pipeline_runs, error_json, equal_fold, is_shown, entry_json, shown_entries, run_json,
  runs_path_name, show_runs, handle_status, handle_history, handle_pipelines, handle_pipeline_runs,
  handle_listeners,
}
use lp.Server.Api.Paths.{has_slash, runs_path, runs_path_name-runs_path}

-- Each handler of the API refuses a request with another method than GET, whatever it asks for.
pub others_refused :
    {W : Type 0} (a : ApiServer W) (r : ApiRequest) (order : List (String × PipelineDef))
    (snapshots : List (String × List (String × ℕ))) (now : ℕ)
    → r.method ≢ "GET"
    → (handle_status order snapshots a r ≡ method_not_allowed)
      × (handle_history a r ≡ method_not_allowed)
      × (handle_pipelines order a r ≡ method_not_allowed)
      × (handle_pipeline_runs order now a r ≡ method_not_allowed)
      × (handle_listeners a r ≡ method_not_allowed)
unfolding handle_status handle_history handle_pipelines handle_pipeline_runs handle_listeners
others_refused a r order snapshots now other =
    let refused : str_eq r.method "GET" ≡ false = other_method in
    (rw refused refl, rw refused refl, rw refused refl, rw refused refl, rw refused refl)
  where
    other_method : str_eq r.method "GET" ≡ false
    other_method = elim (Bool-cases (str_eq r.method "GET")) [
      | inl same ↦ absurd (other ((eq_iff r.method "GET").0 same))
      | inr e ↦ e
    ]

-- The entries that a level asks for
abbrev pub has_level : String → Entry → Bool
has_level level e = is_empty level || equal_fold (level_string e.level) level

-- The entries that a category asks for
abbrev pub in_category : String → Ledger → List Entry
in_category cat l = if is_empty cat then Logging.all l else by_category cat l

shown_lem :
    (cat level : String) (es : List Entry)
    → shown_entries cat level es
      ≡ map entry_json (
          keep_if
            (has_level level)
            (if is_empty cat then es else keep_if (λ e. str_eq e.category cat) es))
unfolding shown_entries is_shown keep_if
shown_lem cat level [] = ground arith
shown_lem cat level (e ∷ es) = ground (arith, shown_lem cat level es)

history_get :
    {W : Type 0} (a : ApiServer W) (r : ApiRequest)
    → r.method ≡ "GET"
    → let shown =
        shown_entries (r.query "category") (r.query "level") (Logging.all a.server.ledger) in
      handle_history a r ≡ write_json 200 (history (length shown) shown)
unfolding handle_history
history_get a r get = ground (arith, (eq_iff r.method "GET").1 get)

shown_ledger :
    (cat level : String) (l : Ledger)
    → shown_entries cat level (Logging.all l)
      ≡ map entry_json (keep_if (has_level level) (in_category cat l))
unfolding by_category Logging.all
shown_ledger cat level l = shown_lem cat level l.entries

-- A GET of the history answers with the entries of the ledger that have the category asked for, as
-- ByCategory finds them, and the level asked for, in any case, in the order of the ledger, and with
-- their number; a parameter that is left out asks for all.
pub handle_history_lem :
    {W : Type 0} (a : ApiServer W) (r : ApiRequest)
    → r.method ≡ "GET"
    → let shown =
        keep_if (has_level (r.query "level")) (in_category (r.query "category") a.server.ledger) in
      handle_history a r ≡ write_json 200 (history (length shown) (map entry_json shown))
handle_history_lem a r get =
    history_get a r get
    ∙ ap (λ (es : List EntryJson). write_json 200 (history (length es) es))
        (shown_ledger (r.query "category") (r.query "level") a.server.ledger)
    ∙ ap
        (λ n. write_json 200 (
          history n (
            map entry_json (
              keep_if (has_level (r.query "level"))
                (in_category (r.query "category") a.server.ledger)))))
        (length-map entry_json (
          keep_if (has_level (r.query "level")) (in_category (r.query "category") a.server.ledger)))

-- What handlePipelineRuns shows of a pipeline
abbrev pub runs_answer : ℕ → String → List Run → ApiAnswer
runs_answer now name runs =
    write_json 200 (pipeline_runs name (length runs) (map (run_json now) runs))

module _ {W : Type 0} (a : ApiServer W) (order : List (String × PipelineDef)) (now : ℕ)
    (name : String) (r : ApiRequest) (get : r.method ≡ "GET") (path : r.path ≡ runs_path name)
    (some_name : is_empty name ≡ false) (plain_name : has_slash name ≡ false) where
  runs_parsed :
      handle_pipeline_runs order now a r ≡ show_runs now name (get_pipeline_by_name order name) a
  unfolding handle_pipeline_runs
  runs_parsed = ground (
    arith,
    (eq_iff r.method "GET").1 get,
    ap runs_path_name path ∙ runs_path_name-runs_path name some_name plain_name,
  )

  runs_found :
      (p : PipelineDef)
      → get_pipeline_by_name order name ≡ ok p
      → handle_pipeline_runs order now a r
        ≡ runs_answer now name (runs_for p.id a.server.tracked.store)
  unfolding show_runs
  runs_found p found =
      runs_parsed
      ∙ ap (λ f. show_runs now name f a) found
      ∙ ap
          (λ n.
            write_json 200
              (pipeline_runs name n (map (run_json now) (runs_for p.id a.server.tracked.store))))
          (length-map (run_json now) (runs_for p.id a.server.tracked.store))

  runs_missing :
      find_by_name name order ≡ none
      → show_runs now name (get_pipeline_by_name order name) a
        ≡ write_json 404 (error_json (pipeline_name_not_found name))
  unfolding get_pipeline_by_name show_runs
  runs_missing missing = ground (arith, missing)

  -- A GET of /api/pipelines/{name}/runs, for a name that is not empty and has no slash, answers with
  -- the runs that RunsFor finds of a stored pipeline of the name, in their order and with their
  -- number, or, if no stored pipeline has the name, with 404 and the error of the lookup.
  pub handle_pipeline_runs_lem :
      IsOrder order a.server.tracked.store.pipelines
      → ((p : PipelineDef) × (id : String) × (Dict.get a.server.tracked.store.pipelines id ≡ some p)
          × (p.name ≡ name)
          × (handle_pipeline_runs order now a r
              ≡ runs_answer now name (runs_for p.id a.server.tracked.store)))
        ⊎ (((id : String) (p : PipelineDef)
              → Dict.get a.server.tracked.store.pipelines id ≡ some p
              → p.name ≢ name)
            × (handle_pipeline_runs order now a r
                ≡ write_json 404 (error_json (pipeline_name_not_found name))))
  unfolding get_pipeline_by_name
  handle_pipeline_runs_lem is_order = elim (Option-cases (find_by_name name order)) [
    | inr (p, found) ↦
        let (same, id, listed) = find_by_name_sound name order p found in
        inl (p, id, is_order.sound id p listed, same, runs_found p (ground (arith, found)))
    | inl missing ↦ inr (
      λ id p stored. find_by_name-none name order missing id p (is_order.complete id p stored),
      runs_parsed ∙ runs_missing missing,
    )
  ]

-- The server with another store
abbrev pub with_store : {W : Type 0} → Store → ApiServer W → ApiServer W
with_store t a = record a {
  server = record a.server { tracked = record a.server.tracked { store = t } };
}

-- When CreateRun has made a run of the pipeline that is found under a name, under an ID that no run
-- has and on a store whose index is right, a GET of the name's runs answers with the runs from
-- before and the new one behind them.
pub created_run_shown :
    {W : Type 0} (a : ApiServer W) (order : List (String × PipelineDef)) (now : ℕ)
    (name new_id : String) (p : PipelineDef) (r : ApiRequest)
    → r.method ≡ "GET"
    → r.path ≡ runs_path name
    → is_empty name ≡ false
    → has_slash name ≡ false
    → get_pipeline_by_name order name ≡ ok p
    → Dict.get a.server.tracked.store.pipelines p.id ≡ some p
    → Dict.get a.server.tracked.store.runs new_id ≡ none
    → IsIndexed a.server.tracked.store
    → (run : Run) × (t : Store) × (create_run new_id p.id a.server.tracked.store ≡ ok (run, t))
      × (handle_pipeline_runs order now (with_store t a) r
          ≡ runs_answer now name (runs_for p.id a.server.tracked.store ++ (run ∷ [])))
created_run_shown a order now name new_id p r get path some_name plain_name found known fresh
      indexed =
    let (run, t, made, records, shown, index) =
      create_run_lem new_id p.id p a.server.tracked.store known fresh indexed in
    let last : runs_for p.id t ≡ runs_for p.id a.server.tracked.store ++ (run ∷ []) =
      shown p.id ∙ rw (eq_refl p.id) refl in
    (
      run,
      t,
      made,
      runs_found (with_store t a) order now name r get path some_name plain_name p found
          ∙ ap (runs_answer now name) last,
    )
