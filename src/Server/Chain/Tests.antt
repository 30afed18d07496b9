-- ===== src/Server/Chain/Tests.antt =====
-- A server with one token and a sink for one event, where a pipeline sends three events.
use lp.Base.{◌+◌, ◌≤◌, List, [], ◌∷◌, Option, some, length, ◌≡◌, ◌⊎◌, refl, arith}
use lp.Runners.Pool.{Event}
use lp.Server.Chain.{
  ready, submitting, PoolSystem, initial, work, arrive, submit_outside, acquire_outside, release,
  leave, Reach, begun, next,
}
use lp.Server.Chain.Bounds.{waiting, pool_bounded, wait_returned}
use lp.Server.Chain.Progress.{CanWork, IsIdle, IsDeadlocked, progress}
use lp.Server.Chain.Deadlock.{pool_deadlocks}

abbrev event : Event
event = record { source = "build"; trigger = "built"; pipeline = "deploy" }

abbrev plan : Event → Option (List Event)
plan e = some []

abbrev submitted : PoolSystem
submitted = record initial { outside = submitting (event ∷ []); wg = 1 }

abbrev one_running : PoolSystem
one_running = record submitted { outside = ready; sem = 1; running = (event ∷ []) ∷ [] }

one_reached : Reach 1 1 plan one_running
one_reached =
    next
      (next (next begun (arrive (some (event ∷ [])) refl refl))
        (work (submit_outside (some (event ∷ [])) refl refl)))
      (work (acquire_outside (event ∷ []) refl (omega arith) refl))

pool_bounded_example :
    (1 ≤ 1)
    × (one_running.sem ≡ 1)
    × (length one_running.sink ≤ 1)
    × (one_running.wg
        ≡ length one_running.running
          + one_running.leaving
          + waiting one_running.chain
          + waiting one_running.outside)
pool_bounded_example = pool_bounded 1 1 plan one_running one_reached

-- A pipeline without events that has run and left
gone : Reach 1 1 plan initial
gone =
    next
      (next
        (next
          (next (next begun (arrive (some []) refl refl))
            (work (submit_outside (some []) refl refl)))
          (work (acquire_outside [] refl (omega arith) refl)))
        (work (release [] [] refl refl)))
      (work (leave 0 refl refl))

wait_returned_example :
    (initial.running ≡ [])
    × (initial.leaving ≡ 0)
    × (waiting initial.chain ≡ 0)
    × (waiting initial.outside ≡ 0)
wait_returned_example = wait_returned 1 1 plan initial gone refl

progress_example :
    CanWork 1 1 plan one_running ⊎ (IsIdle one_running ⊎ IsDeadlocked 1 1 one_running)
progress_example = progress 1 1 plan one_running (omega arith) (omega arith) one_reached

pool_deadlocks_example :
    (t : PoolSystem) × Reach 1 1 plan t × IsDeadlocked 1 1 t × ¬ CanWork 1 1 plan t
pool_deadlocks_example =
    pool_deadlocks 1 1 plan event (event ∷ event ∷ []) [] (omega arith) (omega arith) refl
      (omega arith)
