-- ===== src/Server/Tests.antt =====
-- The theorems about the server at concrete inputs: a pipeline of two steps, the second of which
-- fails, dispatched and run under the hooks of the server with one configured hook.
use lp.Base.{
  ℕ, ◌+◌, ◌==◌, String, List, [], ◌∷◌, none, some, ◌≡◌, ◌≢◌, ◌⊎◌, refl, ap, Elem, length, replicate,
  eq_iff, arith, inl, inr, if◌then◌else◌, trim_space,
}
use lp.Base.Dict
use lp.Base.Dict.{Dict, IsOrder, get-put}
use lp.Errors.{step_error, command_failed}
use lp.Pipeline.Definition.{PipelineDef, to_runners_pipeline, to_runner_step}
use lp.Pipeline.Run.{Run, pending_step, new_run}
use lp.Runners.Step.{Config, Context, Os, execute}
use lp.Runners.Pool.{Pool, Machine, run, with_timeout}
use lp.Server.State.{Server}
use lp.Server.Wiring.{HookEntry, wired_pool}
use lp.Server.Wiring.Emits.{IsWired}
use lp.Server.Wiring.Registered.{wired_pool-IsWired}
use lp.Server.Follow.{Follows, Finished}
use lp.Server.RunRecord.{completed_record, failed_record, step_records, first_error, run-records}
use lp.Server.Dispatch.{IsKeyed, dispatch_pipeline}
use lp.Server.Dispatched.{run_on, records_of, error_of, dispatched_run}

abbrev config : Config
config = record { timeout = 60; max_concurrent = 4 }

abbrev hook_entry : HookEntry
hook_entry = record { event = "pipeline_failed"; command = "echo"; timeout = 0 }

-- The state of the system counts the commands; the second one fails.
abbrev counting_os : Os ℕ
counting_os = record {
  now = λ o. o + 100;
  environ = λ c o. [];
  run = λ ctx c o. (
    record { err = if o == 1 then some "exit status 1" else none; stdout = "out"; stderr = "" },
    o + 1,
  );
}

abbrev no_deadline : Context
no_deadline = record { deadline = none }

abbrev build_def : PipelineDef
build_def = record {
  id = "p1";
  name = "build";
  steps =
      record { name = "compile"; command = "true"; args = []; dir = ""; env = []; emit = [] }
      ∷ record { name = "test"; command = "false"; args = []; dir = ""; env = []; emit = [] }
      ∷ [];
  emit = [];
}

abbrev idle_server : Server
idle_server = record {
  tracked = record {
    store = record {
      pipelines = record { entries = ("p1", build_def) ∷ [] };
      runs = record { entries = [] };
      by_pipeline = record { entries = [] };
    };
    active_runs = record { entries = [] };
  };
  ledger = record { entries = [] };
  output = [];
  broadcasts = [];
  commands = [];
}

abbrev build_order : List (String × PipelineDef)
build_order = ("p1", build_def) ∷ []

one_entry :
    (k : String) (v : PipelineDef)
    → Elem (k, v) build_order
    → Dict.get idle_server.tracked.store.pipelines k ≡ some v
unfolding Dict.get
one_entry k v (inl e) = ground (
  arith,
  eq_iff "p1" k,
  ap (λ (x : String × PipelineDef). x.0) e,
  ap (λ (x : String × PipelineDef). x.1) e,
)
one_entry k v (inr e) = absurd e

build_order-IsOrder : IsOrder build_order idle_server.tracked.store.pipelines
unfolding Dict.get
build_order-IsOrder = record {
  sound = one_entry;
  complete = λ k v h. inl (ground (arith, eq_iff "p1" k));
}

idle_server-IsKeyed : IsKeyed idle_server.tracked.store
unfolding Dict.get
idle_server-IsKeyed k p h = ground (arith, eq_iff "p1" k)

wired_pool-IsWired_example : IsWired (wired_pool config (hook_entry ∷ [])).hooks
wired_pool-IsWired_example = wired_pool-IsWired config (hook_entry ∷ [])

abbrev build_pool : Pool Server
build_pool = wired_pool config (hook_entry ∷ [])

dispatched_run_example :
    let d = dispatch_pipeline build_order "r1" 7 none "build" "event" idle_server in
    ((q : PipelineDef) × (id : String) × (Dict.get idle_server.tracked.store.pipelines id ≡ some q)
      × (q.name ≡ "build")
      × (d.1 ≡ some (to_runners_pipeline q))
      × Finished "build" "r1" idle_server.tracked
          (run_on counting_os no_deadline build_pool 0 (to_runners_pipeline q) d.0).1
          (records_of counting_os no_deadline build_pool 0 (to_runners_pipeline q))
          (error_of counting_os no_deadline build_pool 0 (to_runners_pipeline q))
      × ((run_on counting_os no_deadline build_pool 0 (to_runners_pipeline q) d.0).0
          ≡ error_of counting_os no_deadline build_pool 0 (to_runners_pipeline q)))
    ⊎ (((id : String) (q : PipelineDef)
          → Dict.get idle_server.tracked.store.pipelines id ≡ some q
          → q.name ≢ "build")
        × (d.1 ≡ none)
        × (d.0.tracked ≡ idle_server.tracked))
dispatched_run_example =
    dispatched_run counting_os no_deadline build_pool 0 build_order "r1" 7 "build" "event"
      idle_server (wired_pool-IsWired config (hook_entry ∷ [])) build_order-IsOrder
      idle_server-IsKeyed

-- The run of the dispatched pipeline, by a pool wired as the server's.
abbrev busy_run : String → Run
unfolding new_run
busy_run id = new_run id "p1" 2

abbrev busy_server : Server
busy_server = record idle_server {
  tracked = record {
    store = record idle_server.tracked.store {
      runs = record { entries = ("r2", busy_run "r2") ∷ ("r1", busy_run "r1") ∷ [] };
    };
    active_runs = record { entries = ("build", "r2") ∷ [] };
  };
}

abbrev busy_machine : Machine Server ℕ
busy_machine = record { pool = wired_pool config (hook_entry ∷ []); world = busy_server; os = 0 }

busy-Follows :
    Follows
      (to_runners_pipeline build_def).name
      "r2"
      busy_server.tracked
      busy_server.tracked
      (replicate (length (to_runners_pipeline build_def).steps) pending_step)
unfolding to_runners_pipeline to_runner_step Dict.get new_run busy_run
busy-Follows = record {
  run = busy_run "r2";
  active = refl;
  stored = refl;
  records = refl;
  no_error = refl;
  others = λ j h. refl;
}

run-records_example :
    Finished
      (to_runners_pipeline build_def).name
      "r2"
      busy_server.tracked
      (run counting_os no_deadline (to_runners_pipeline build_def) busy_machine).1.world.tracked
      (step_records counting_os
        (with_timeout 100 (wired_pool config (hook_entry ∷ [])).cfg.timeout no_deadline)
        (to_runners_pipeline build_def).name
        0
        (to_runners_pipeline build_def).steps
        0)
      (first_error counting_os
        (with_timeout 100 (wired_pool config (hook_entry ∷ [])).cfg.timeout no_deadline)
        (to_runners_pipeline build_def).name
        0
        (to_runners_pipeline build_def).steps
        0)
    × ((run counting_os no_deadline (to_runners_pipeline build_def) busy_machine).0
        ≡ first_error counting_os
            (with_timeout 100 (wired_pool config (hook_entry ∷ [])).cfg.timeout no_deadline)
            (to_runners_pipeline build_def).name
            0
            (to_runners_pipeline build_def).steps
            0)
run-records_example =
    run-records counting_os no_deadline (to_runners_pipeline build_def) busy_machine "r2"
      (wired_pool-IsWired config (hook_entry ∷ [])) busy-Follows

-- The second command fails: the run has failed, the first step is completed, and the second has
-- the error.
second_fails :
    step_records counting_os no_deadline "build" 0 (to_runners_pipeline build_def).steps 0
    ≡ completed_record "compile" (record { stdout = "out"; stderr = "" })
      ∷ failed_record "test" (step_error "build" 1 "test" (command_failed "exit status 1" ""))
      ∷ []
unfolding step_records to_runners_pipeline execute trim_space
second_fails = refl
