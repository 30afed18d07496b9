-- ===== src/Server/Shutdown/Tests.antt =====
-- cmd/server/server.go, run: one pipeline that runs and ends before the signal comes.
use lp.Base.{true, List, [], Option, none, some, ◌≡◌, refl, arith}
use lp.Runners.Pool.{Event}
use lp.Server.Chain.{release, leave, submit_outside, acquire_outside, initial}
use lp.Server.Shutdown.{
  RunSystem, waiting, finishing, alive, Runs, begun, next, work, enqueue, take_queued, cancel,
  leave_manager, step, here,
}
use lp.Server.Shutdown.Late.{nothing_late}

abbrev no_plan : Event → Option (List Event)
no_plan e = none

abbrev push : Event
push = record { source = "build"; trigger = "built"; pipeline = "deploy" }

abbrev served : RunSystem
served = record { pool = record initial { cancelled = true }; queue = []; phase = waiting }

served-Runs : Runs 1 1 1 no_plan served
served-Runs =
    let sent = next begun (alive tt (enqueue (some []) refl (omega arith) refl)) in
    let taken = next sent (alive tt (take_queued (some []) [] refl refl refl)) in
    let submitted = next taken (alive tt (work _ (submit_outside (some []) refl refl) refl)) in
    let started =
      next submitted (alive tt (work _ (acquire_outside [] refl (omega arith) refl) refl)) in
    let ended = next started (alive tt (work _ (release [] [] refl refl) refl)) in
    let left = next ended (alive tt (work _ (leave 0 refl refl) refl)) in
    let off = next left (alive tt (cancel refl)) in
    next off (alive tt (leave_manager refl refl refl))

nothing_late_example : (served.pool.running ≡ []) × (served.pool.sink ≡ []) × (served.queue ≡ [])
nothing_late_example =
    nothing_late 1 1 1 no_plan served (record served { phase = finishing }) served-Runs refl refl
      refl refl refl refl (step here (alive tt (cancel refl)))
