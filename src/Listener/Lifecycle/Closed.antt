-- ===== src/Listener/Lifecycle/Closed.antt =====
-- internal/listener/manager.go, Start: when the channel is closed, and who still sends.
use lp.Base.{
  ℕ, Bool, true, false, List, [], ◌∷◌, ◌++◌, map, length, ◌≡◌, refl, sym, ◌∙◌, ap, Bool-cases, inl,
  inr, arith,
}
use lp.Listener.Manager.{Listener}
use lp.Listener.Lifecycle.{
  Phase, launched, serving, returned, leaving, gone, Worker, MainPhase, launching, waiting,
  stopping, finished, ManagerSystem, start_manager, at, WorkerStep, begin, send, send_closed,
  request, fail, return, report, stopped, done, ManagerStep, launch, launched_all, work, accept,
  accept_closed, take_event, cancel, stop_all, stop, close, Reach, begun, next,
}
use lp.Listener.Lifecycle.Counts.{
  alive, has_started, has_stopped, total, started_calls, stopped_calls, to_launch, total-at,
  IsCounted, Reach-IsCounted,
}

-- Start is at its end exactly if the channel is closed
unfoldable pub is_finished : MainPhase → Bool
is_finished (launching ls) = false
is_finished waiting = false
is_finished (stopping ls) = false
is_finished finished = true

-- The goroutine of Start closes the channel at its end, with the counter of the wait group at 0, and
-- no goroutine of a listener has sent on the closed channel.
pub record IsOrderly (s : ManagerSystem) : Type 0 where
  pub ends : s.closed ≡ is_finished s.main
  pub empty : s.closed ≡ true → s.wg ≡ 0
  pub calm : s.worker_panicked ≡ false

open_until_gone :
    (size : ℕ) (s : ManagerSystem) (before after : List Worker) (l : Listener) (p : Phase)
    → s.workers ≡ before ++ (at l p ∷ after)
    → alive p ≡ 1
    → IsCounted size s
    → IsOrderly s
    → s.closed ≡ false
open_until_gone size s before after l p here counts c o = elim (Bool-cases s.closed) [
  | inr is_open ↦ is_open
  | inl closed ↦ absurd (
      omega (
        arith,
        o.empty closed,
        c.counted,
        ap (total alive) here ∙ total-at alive before after l p,
        counts,
      ))
]

-- Steps before the end of Start, and steps that change nothing of this
ongoing :
    {s t : ManagerSystem}
    → IsOrderly s
    → s.closed ≡ false
    → is_finished t.main ≡ false
    → t.closed ≡ s.closed
    → t.worker_panicked ≡ s.worker_panicked
    → IsOrderly t
ongoing o is_open unfinished closed panicked = record {
  ends = closed ∙ is_open ∙ sym unfinished;
  empty = λ e. absurd (ground (arith, e, closed, is_open));
  calm = panicked ∙ o.calm;
}

kept :
    {s t : ManagerSystem}
    → IsOrderly s
    → t.main ≡ s.main
    → t.closed ≡ s.closed
    → t.wg ≡ s.wg
    → t.worker_panicked ≡ s.worker_panicked
    → IsOrderly t
kept o main closed wg panicked = record {
  ends = closed ∙ o.ends ∙ ap is_finished (sym main);
  empty = λ e. wg ∙ o.empty (sym closed ∙ e);
  calm = panicked ∙ o.calm;
}

module _ (buffer : ℕ) where
  WorkerStep-alive :
      {s t : ManagerSystem} {before after : List Worker} {l : Listener} {p : Phase}
      → WorkerStep buffer s t before after l p
      → alive p ≡ 1
  unfolding alive
  WorkerStep-alive (begin same) = refl
  WorkerStep-alive (send e poll is_open room same) = refl
  WorkerStep-alive (send_closed poll closed same) = refl
  WorkerStep-alive (request http same) = refl
  WorkerStep-alive (fail e same) = refl
  WorkerStep-alive (return off same) = refl
  WorkerStep-alive (report e same) = refl
  WorkerStep-alive (stopped same) = refl
  WorkerStep-alive (done same) = refl

  WorkerStep-main :
      {s t : ManagerSystem} {before after : List Worker} {l : Listener} {p : Phase}
      → WorkerStep buffer s t before after l p
      → s.closed ≡ false
      → (t.main ≡ s.main) × (t.closed ≡ s.closed) × (t.worker_panicked ≡ s.worker_panicked)
  WorkerStep-main (begin same) h = ground arith
  WorkerStep-main (send e poll is_open room same) h = ground arith
  WorkerStep-main (send_closed poll closed same) h = absurd (ground arith)
  WorkerStep-main (request http same) h = ground arith
  WorkerStep-main (fail e same) h = ground arith
  WorkerStep-main (return off same) h = ground arith
  WorkerStep-main (report e same) h = ground arith
  WorkerStep-main (stopped same) h = ground arith
  WorkerStep-main (done same) h = ground arith

  ManagerStep-IsOrderly :
      {s t : ManagerSystem} (size : ℕ)
      → ManagerStep buffer s t
      → IsCounted size s
      → IsOrderly s
      → IsOrderly t
  unfolding is_finished
  ManagerStep-IsOrderly size (launch l rest here same) c o =
      ongoing o (o.ends ∙ ap is_finished here) (ap (λ u. is_finished u.main) same)
        (ap ManagerSystem.closed same) (ap ManagerSystem.worker_panicked same)
  ManagerStep-IsOrderly size (launched_all here same) c o =
      ongoing o (o.ends ∙ ap is_finished here) (ap (λ u. is_finished u.main) same)
        (ap ManagerSystem.closed same) (ap ManagerSystem.worker_panicked same)
  ManagerStep-IsOrderly {s} size (work before after l p here step) c o =
      let is_open = open_until_gone size s before after l p here (WorkerStep-alive step) c o in
      let (main, closed, panicked) = WorkerStep-main step is_open in
      ongoing o is_open (ap is_finished main ∙ sym o.ends ∙ is_open) closed panicked
  ManagerStep-IsOrderly size (accept n e here is_open room same) c o = ground (arith, kept o, same)
  ManagerStep-IsOrderly size (accept_closed n here closed same) c o = ground (arith, kept o, same)
  ManagerStep-IsOrderly size (take_event e rest here same) c o = ground (arith, kept o, same)
  ManagerStep-IsOrderly size (cancel same) c o = ground (arith, kept o, same)
  ManagerStep-IsOrderly size (stop_all here off same) c o =
      ongoing o (o.ends ∙ ap is_finished here) (ap (λ u. is_finished u.main) same)
        (ap ManagerSystem.closed same) (ap ManagerSystem.worker_panicked same)
  ManagerStep-IsOrderly size (stop l rest here same) c o =
      ongoing o (o.ends ∙ ap is_finished here) (ap (λ u. is_finished u.main) same)
        (ap ManagerSystem.closed same) (ap ManagerSystem.worker_panicked same)
  ManagerStep-IsOrderly size (close here zero_count same) c o = record {
    ends = ground (arith, same);
    empty = λ e. ap ManagerSystem.wg same ∙ zero_count;
    calm = ap ManagerSystem.worker_panicked same ∙ o.calm;
  }

  pub Reach-IsOrderly :
      (listeners : List Listener) {s : ManagerSystem} → Reach buffer listeners s → IsOrderly s
  unfolding start_manager is_finished
  Reach-IsOrderly listeners begun = record { ends = refl; empty = λ e. refl; calm = refl }
  Reach-IsOrderly listeners (next r step) =
      ManagerStep-IsOrderly (length listeners) step (Reach-IsCounted buffer listeners r)
        (Reach-IsOrderly listeners r)

gone_of : (p : Phase) → alive p ≡ 0 → p ≡ gone
unfolding alive
gone_of launched h = absurd (omega (arith, h))
gone_of serving h = absurd (omega (arith, h))
gone_of (returned e) h = absurd (omega (arith, h))
gone_of leaving h = absurd (omega (arith, h))
gone_of gone h = refl

all_gone :
    (ws : List Worker) → total alive ws ≡ 0 → ws ≡ map (λ (w : Worker). at w.listener gone) ws
unfolding total alive
all_gone [] none_alive = refl
all_gone (w ∷ ws) none_alive =
    let end : w ≡ at w.listener gone =
      ap (at w.listener) (gone_of w.phase (omega (arith, none_alive))) in
    let rest = all_gone ws (omega (arith, none_alive)) in
    ap (λ v. v ∷ ws) end ∙ ap (λ l. at w.listener gone ∷ l) rest

total-gone :
    (f : Phase → ℕ) (ws : List Worker)
    → f gone ≡ 1
    → total f (map (λ (w : Worker). at w.listener gone) ws) ≡ length ws
unfolding total
total-gone f [] one = refl
total-gone f (w ∷ ws) one = omega (arith, total-gone f ws one, one)

pub finished_of : (m : MainPhase) → is_finished m ≡ true → m ≡ finished
unfolding is_finished
finished_of (launching ls) h = absurd (ground arith)
finished_of waiting h = absurd (ground arith)
finished_of (stopping ls) h = absurd (ground arith)
finished_of finished h = refl

-- However the goroutines are interleaved: when the channel of events is closed, there are as many
-- goroutines as registered listeners, all of them are at their end, and the hooks were told as many
-- times that a listener started, and as many times that one stopped.
pub closed_last :
    (buffer : ℕ) (listeners : List Listener) (s : ManagerSystem)
    → Reach buffer listeners s
    → s.closed ≡ true
    → (length s.workers ≡ length listeners)
      × (s.workers ≡ map (λ (w : Worker). at w.listener gone) s.workers)
      × (started_calls s.hook_calls ≡ length listeners)
      × (stopped_calls s.hook_calls ≡ length listeners)
unfolding to_launch has_started has_stopped
closed_last buffer listeners s r closed =
    let c = Reach-IsCounted buffer listeners r in
    let o = Reach-IsOrderly buffer listeners r in
    let over = finished_of s.main (sym o.ends ∙ closed) in
    let gone_all = all_gone s.workers (sym c.counted ∙ o.empty closed) in
    let size : length s.workers ≡ length listeners = omega (arith, c.launches, ap to_launch over) in
    (
      size,
      gone_all,
      c.starts ∙ ap (total has_started) gone_all ∙ total-gone has_started s.workers refl ∙ size,
      c.stops ∙ ap (total has_stopped) gone_all ∙ total-gone has_stopped s.workers refl ∙ size,
    )

-- However the goroutines are interleaved, no goroutine that runs Start of a listener sends an event on
-- the closed channel.
pub workers_send_open :
    (buffer : ℕ) (listeners : List Listener) (s : ManagerSystem)
    → Reach buffer listeners s
    → s.worker_panicked ≡ false
workers_send_open buffer listeners s r = (Reach-IsOrderly buffer listeners r).calm
