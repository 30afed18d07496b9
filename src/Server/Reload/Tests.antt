-- ===== src/Server/Reload/Tests.antt =====
-- A directory with one pipeline file, which has changed since it was noted.
use mathlib.Core.Path.{subst}
use lp.Base.{
  ℕ, String, true, false, List, [], ◌∷◌, ◌++◌, some, ◌≡◌, ◌↔◌, ◌⊎◌, inl, inr, refl, arith, ap, sym,
  Elem, eq_iff,
}
use lp.Base.Dict.{Dict, IsOrder}
use lp.Base.Dict
use lp.Base.Dict.Sizes.{empty-IsUnique}
use lp.Errors.{external}
use lp.Logging.{new_ledger}
use lp.Pipeline.Store.{ok, err, new_store}
use lp.Server.State.{Server}
use lp.Server.Loading.{Files, is_pipeline_file, reload_pipelines}
use lp.Server.Reload.{
  Polled, PollTick, Watch, snapshot_pipeline_files, pipeline_files_changed, reload_round,
}
use lp.Server.Reload.Report.{reload_event, reload_entries_of}
use lp.Server.Reload.Changes.{AreSame, pipeline_files_changed_lem, reload_round_lem}

abbrev files : Files
files = record {
  stat = λ dir. ok true;
  read_dir = λ dir. ok (record { name = "a.yml"; is_dir = false } ∷ []);
  read_file = λ path. err (external "gone");
  decode = λ content. err (external "bad");
  join = λ dir name. name;
  fresh_id = λ n. "id";
}

abbrev at : ℕ → Polled
at time = record { files = files; mod_time = λ dir name. some time }

abbrev dirs : List String
dirs = "pipelines" ∷ []

abbrev order : List (String × ℕ)
order = ("a.yml", 2) ∷ []

one_file : snapshot_pipeline_files (at 2) dirs ≡ record { entries = order }
unfolding snapshot_pipeline_files Dict.put Dict.empty is_pipeline_file
one_file = refl

single : Dict ℕ
single = record { entries = order }

single_sound : (k : String) (v : ℕ) → Elem (k, v) order → Dict.get single k ≡ some v
unfolding Dict.get single
single_sound k v (inl e) =
    ground (arith, eq_iff "a.yml" k, ap (λ (x : String × ℕ). x.0) e, ap (λ (x : String × ℕ). x.1) e)
single_sound k v (inr e) = absurd e

single_complete : (k : String) (v : ℕ) → Dict.get single k ≡ some v → Elem (k, v) order
unfolding Dict.get single
single_complete k v h = inl (ground (arith, eq_iff "a.yml" k))

single-IsOrder : IsOrder order single
single-IsOrder = record { sound = single_sound; complete = single_complete }

order-IsOrder : IsOrder order (snapshot_pipeline_files (at 2) dirs)
unfolding single
order-IsOrder = subst (λ (d : Dict ℕ). IsOrder order d) (sym one_file) single-IsOrder

pipeline_files_changed_lem_example :
    (pipeline_files_changed order
        (snapshot_pipeline_files (at 1) dirs)
        (snapshot_pipeline_files (at 2) dirs)
      ≡ false)
    ↔ ((path : String)
        → Dict.get (snapshot_pipeline_files (at 1) dirs) path
          ≡ Dict.get (snapshot_pipeline_files (at 2) dirs) path)
pipeline_files_changed_lem_example =
    pipeline_files_changed_lem (at 1) (at 2) dirs order order-IsOrder

abbrev server : Server
server = record {
  tracked = record { store = new_store; active_runs = Dict.empty };
  ledger = new_ledger;
  output = [];
  broadcasts = [];
  commands = [];
}

abbrev tick : PollTick
tick = record { fs = at 2; snapshot_order = order; pipeline_order = []; now = 9 }

abbrev noted : Watch
noted = record { server = server; mod_times = Dict.empty; next = 0 }

reload_round_lem_example :
    let after = reload_round dirs tick noted in
    let reloaded = reload_pipelines files [] dirs new_store 0 in
    (AreSame dirs tick noted × (after ≡ noted))
    ⊎ ((¬ AreSame dirs tick noted)
        × (after.server.tracked ≡ record server.tracked { store = reloaded.0 })
        × (after.server.broadcasts ≡ reload_event 9 reloaded.1 ∷ [])
        × (after.server.ledger.entries
            ≡ new_ledger.entries ++ reload_entries_of 9 reloaded.1 reloaded.2)
        × (after.mod_times ≡ snapshot_pipeline_files (at 2) dirs))
reload_round_lem_example = reload_round_lem dirs tick noted empty-IsUnique order-IsOrder
