-- ===== src/Listener/Lifecycle/Counts.antt =====
-- internal/listener/manager.go, Start: what the wait group and the calls of the hooks count.
use lp.Base.{
  ℕ, ◌+◌, List, [], ◌∷◌, ◌++◌, none, some, length, length-append, ◌≡◌, refl, ◌∙◌, ap, arith,
}
use lp.Listener.Manager.{Listener, listener_name}
use lp.Listener.Lifecycle.{
  Phase, launched, serving, returned, leaving, gone, Worker, MainPhase, launching, waiting,
  stopping, finished, HookCall, listener_started, listener_error, listener_stopped, ManagerSystem,
  start_manager, at, WorkerStep, begin, send, send_closed, request, fail, return, report, stopped,
  done, ManagerStep, launch, launched_all, work, accept, accept_closed, take_event, cancel,
  stop_all, stop, close, Reach, begun, next,
}

-- The share of a goroutine in the wait group, and whether it has told that its listener started or
-- stopped
unfoldable pub alive : Phase → ℕ
alive launched = 1
alive serving = 1
alive (returned e) = 1
alive leaving = 1
alive gone = 0

unfoldable pub has_started : Phase → ℕ
has_started launched = 0
has_started serving = 1
has_started (returned e) = 1
has_started leaving = 1
has_started gone = 1

unfoldable pub has_stopped : Phase → ℕ
has_stopped launched = 0
has_stopped serving = 0
has_stopped (returned e) = 0
has_stopped leaving = 1
has_stopped gone = 1

unfoldable pub total : (Phase → ℕ) → List Worker → ℕ
total f [] = 0
total f (w ∷ ws) = f w.phase + total f ws

unfoldable pub started_calls : List HookCall → ℕ
started_calls [] = 0
started_calls (listener_started name ∷ calls) = started_calls calls + 1
started_calls (listener_error name e ∷ calls) = started_calls calls
started_calls (listener_stopped name ∷ calls) = started_calls calls

unfoldable pub stopped_calls : List HookCall → ℕ
stopped_calls [] = 0
stopped_calls (listener_started name ∷ calls) = stopped_calls calls
stopped_calls (listener_error name e ∷ calls) = stopped_calls calls
stopped_calls (listener_stopped name ∷ calls) = stopped_calls calls + 1

-- The listeners that are yet to be launched
unfoldable pub to_launch : MainPhase → ℕ
to_launch (launching ls) = length ls
to_launch waiting = 0
to_launch (stopping ls) = 0
to_launch finished = 0

total-append : (f : Phase → ℕ) (ws vs : List Worker) → total f (ws ++ vs) ≡ total f ws + total f vs
unfolding total
total-append f [] vs = omega arith
total-append f (w ∷ ws) vs = omega (arith, total-append f ws vs)

pub total-at :
    (f : Phase → ℕ) (before after : List Worker) (l : Listener) (p : Phase)
    → total f (before ++ (at l p ∷ after)) ≡ total f before + f p + total f after
unfolding total
total-at f before after l p = omega (arith, total-append f before (at l p ∷ after))

started_calls-append :
    (xs ys : List HookCall) → started_calls (xs ++ ys) ≡ started_calls xs + started_calls ys
unfolding started_calls
started_calls-append [] ys = omega arith
started_calls-append (listener_started name ∷ xs) ys = omega (arith, started_calls-append xs ys)
started_calls-append (listener_error name e ∷ xs) ys = omega (arith, started_calls-append xs ys)
started_calls-append (listener_stopped name ∷ xs) ys = omega (arith, started_calls-append xs ys)

stopped_calls-append :
    (xs ys : List HookCall) → stopped_calls (xs ++ ys) ≡ stopped_calls xs + stopped_calls ys
unfolding stopped_calls
stopped_calls-append [] ys = omega arith
stopped_calls-append (listener_started name ∷ xs) ys = omega (arith, stopped_calls-append xs ys)
stopped_calls-append (listener_error name e ∷ xs) ys = omega (arith, stopped_calls-append xs ys)
stopped_calls-append (listener_stopped name ∷ xs) ys = omega (arith, stopped_calls-append xs ys)

-- Of `size` listeners: the wait group counts the goroutines that have not called Done, and the hooks
-- were called once for each goroutine that is past the call.
pub record IsCounted (size : ℕ) (s : ManagerSystem) : Type 0 where
  pub launches : length s.workers + to_launch s.main ≡ size
  pub counted : s.wg ≡ total alive s.workers
  pub starts : started_calls s.hook_calls ≡ total has_started s.workers
  pub stops : stopped_calls s.hook_calls ≡ total has_stopped s.workers

module _ (buffer size : ℕ) where
  -- A goroutine goes from one phase to another, and what it counts goes with it.
  moved :
      {s t : ManagerSystem} (before after : List Worker) (l : Listener) (p q : Phase)
      → s.workers ≡ before ++ (at l p ∷ after)
      → t.workers ≡ before ++ (at l q ∷ after)
      → t.main ≡ s.main
      → t.wg + alive p ≡ s.wg + alive q
      → started_calls t.hook_calls + has_started p ≡ started_calls s.hook_calls + has_started q
      → stopped_calls t.hook_calls + has_stopped p ≡ stopped_calls s.hook_calls + has_stopped q
      → IsCounted size s
      → IsCounted size t
  moved before after l p q here there same waits starts stops c = record {
    launches = ground (
      arith,
      ap length here,
      ap length there,
      length-append before (at l p ∷ after),
      length-append before (at l q ∷ after),
      c.launches,
      ap to_launch same,
    );
    counted = omega (
      arith,
      ap (total alive) here ∙ total-at alive before after l p,
      ap (total alive) there ∙ total-at alive before after l q,
      c.counted,
      waits,
    );
    starts = omega (
      arith,
      ap (total has_started) here ∙ total-at has_started before after l p,
      ap (total has_started) there ∙ total-at has_started before after l q,
      c.starts,
      starts,
    );
    stops = omega (
      arith,
      ap (total has_stopped) here ∙ total-at has_stopped before after l p,
      ap (total has_stopped) there ∙ total-at has_stopped before after l q,
      c.stops,
      stops,
    );
  }

  WorkerStep-IsCounted :
      {s t : ManagerSystem} (before after : List Worker) (l : Listener) (p : Phase)
      → s.workers ≡ before ++ (at l p ∷ after)
      → WorkerStep buffer s t before after l p
      → IsCounted size s
      → IsCounted size t
  unfolding alive has_started has_stopped started_calls stopped_calls
  WorkerStep-IsCounted {s} before after l _ here (begin same) c =
      let call : HookCall = listener_started (listener_name l) in
      moved before after l launched serving here (ap ManagerSystem.workers same)
        (ap ManagerSystem.main same) (ground (arith, same))
        (ground (arith, same, started_calls-append s.hook_calls (call ∷ [])))
        (ground (arith, same, stopped_calls-append s.hook_calls (call ∷ []))) c
  WorkerStep-IsCounted before after l _ here (send e poll open_channel room same) c = ground arith
  WorkerStep-IsCounted before after l _ here (send_closed poll closed same) c = ground arith
  WorkerStep-IsCounted before after l _ here (request http same) c = ground arith
  WorkerStep-IsCounted before after l _ here (fail e same) c =
      moved before after l serving (returned (some e)) here (ap ManagerSystem.workers same)
        (ap ManagerSystem.main same) (ground (arith, same)) (ground (arith, same))
        (ground (arith, same)) c
  WorkerStep-IsCounted before after l _ here (return off same) c =
      moved before after l serving (returned none) here (ap ManagerSystem.workers same)
        (ap ManagerSystem.main same) (ground (arith, same)) (ground (arith, same))
        (ground (arith, same)) c
  WorkerStep-IsCounted {s} before after l _ here (report e same) c =
      let call : HookCall = listener_error (listener_name l) e in
      moved before after l (returned (some e)) (returned none) here (ap ManagerSystem.workers same)
        (ap ManagerSystem.main same) (ground (arith, same))
        (ground (arith, same, started_calls-append s.hook_calls (call ∷ [])))
        (ground (arith, same, stopped_calls-append s.hook_calls (call ∷ []))) c
  WorkerStep-IsCounted {s} before after l _ here (stopped same) c =
      let call : HookCall = listener_stopped (listener_name l) in
      moved before after l (returned none) leaving here (ap ManagerSystem.workers same)
        (ap ManagerSystem.main same) (ground (arith, same))
        (ground (arith, same, started_calls-append s.hook_calls (call ∷ [])))
        (ground (arith, same, stopped_calls-append s.hook_calls (call ∷ []))) c
  WorkerStep-IsCounted {s} before after l _ here (done same) c =
      let one = ap (total alive) here ∙ total-at alive before after l leaving in
      moved before after l leaving gone here (ap ManagerSystem.workers same)
        (ap ManagerSystem.main same) (ground (arith, same, one, c.counted)) (ground (arith, same))
        (ground (arith, same)) c

  ManagerStep-IsCounted :
      {s t : ManagerSystem} → ManagerStep buffer s t → IsCounted size s → IsCounted size t
  unfolding total alive has_started has_stopped to_launch
  ManagerStep-IsCounted {s} (launch l rest here same) c =
      let added = total-append alive s.workers (at l launched ∷ []) in
      let starts = total-append has_started s.workers (at l launched ∷ []) in
      let stops = total-append has_stopped s.workers (at l launched ∷ []) in
      let size = length-append s.workers (at l launched ∷ []) in
      ground (arith, same, here, c, ap to_launch here, added, starts, stops, size)
  ManagerStep-IsCounted (launched_all here same) c = ground (arith, ap to_launch here)
  ManagerStep-IsCounted (work before after l p here step) c =
      WorkerStep-IsCounted before after l p here step c
  ManagerStep-IsCounted (accept n e here open_channel room same) c = ground arith
  ManagerStep-IsCounted (accept_closed n here closed same) c = ground arith
  ManagerStep-IsCounted (take_event e rest here same) c = ground arith
  ManagerStep-IsCounted (cancel same) c = ground arith
  ManagerStep-IsCounted (stop_all here off same) c = ground (arith, ap to_launch here)
  ManagerStep-IsCounted (stop l rest here same) c = ground (arith, ap to_launch here)
  ManagerStep-IsCounted (close here zero_count same) c = ground (arith, ap to_launch here)

pub Reach-IsCounted :
    (buffer : ℕ) (listeners : List Listener) {s : ManagerSystem}
    → Reach buffer listeners s
    → IsCounted (length listeners) s
unfolding start_manager total to_launch started_calls stopped_calls
Reach-IsCounted buffer listeners begun = record {
  launches = omega arith;
  counted = refl;
  starts = refl;
  stops = refl;
}
Reach-IsCounted buffer listeners (next r step) =
    ManagerStep-IsCounted buffer (length listeners) step (Reach-IsCounted buffer listeners r)
