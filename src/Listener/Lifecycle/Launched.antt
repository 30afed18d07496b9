-- ===== src/Listener/Lifecycle/Launched.antt =====
-- internal/listener/manager.go, Start: each registered listener has its goroutine, in order.
use mathlib.Core.List.{append-nil, append_assoc, map-append}
use lp.Base.{
  ℕ, false, List, [], ◌∷◌, ◌++◌, some, none, map, length, ◌≡◌, ◌⊎◌, inl, inr, refl, sym, ◌∙◌, ap,
  Bool-cases, arith,
}
use lp.Listener.Manager.{Listener}
use lp.Listener.Lifecycle.{
  Phase, Worker, MainPhase, launching, waiting, stopping, finished, ManagerSystem, start_manager,
  at, launched, serving, returned, leaving, gone, WorkerStep, begin, send, send_closed, request,
  fail, return, report, stopped, done, ManagerStep, launch, launched_all, work, accept,
  accept_closed, take_event, cancel, stop_all, stop, close, Reach, begun, next,
}
use lp.Listener.Lifecycle.Counts.{started_calls, stopped_calls}
use lp.Listener.Lifecycle.Closed.{closed_last, workers_send_open, finished_of, Reach-IsOrderly}

abbrev pub listeners_of : List Worker → List Listener
listeners_of ws = map (λ (w : Worker). w.listener) ws

-- The listeners that the first loop has yet to reach
abbrev left : MainPhase → List Listener
left (launching ls) = ls
left waiting = []
left (stopping ls) = []
left finished = []

listeners_of-at :
    {ws vs : List Worker} (before after : List Worker) (l : Listener) (p q : Phase)
    → ws ≡ before ++ (at l p ∷ after)
    → vs ≡ before ++ (at l q ∷ after)
    → listeners_of vs ≡ listeners_of ws
listeners_of-at before after l p q h k =
    ap listeners_of k
    ∙ map-append _ before (at l q ∷ after)
    ∙ sym (map-append _ before (at l p ∷ after))
    ∙ sym (ap listeners_of h)

abbrev AllLaunched : List Listener → ManagerSystem → Type 0
AllLaunched ls s = listeners_of s.workers ++ left s.main ≡ ls

AllLaunched-same :
    (s t : ManagerSystem) (ls : List Listener)
    → listeners_of t.workers ≡ listeners_of s.workers
    → left t.main ≡ left s.main
    → AllLaunched ls s
    → AllLaunched ls t
AllLaunched-same s t ls workers main a = ground (arith, workers, main, a)

module _ (buffer : ℕ) where
  -- A step of a goroutine leaves the listeners and the place of Start as they are.
  WorkerStep-listeners :
      {s t : ManagerSystem} (before after : List Worker) (l : Listener) (p : Phase)
      → s.workers ≡ before ++ (at l p ∷ after)
      → WorkerStep buffer s t before after l p
      → (listeners_of t.workers ≡ listeners_of s.workers) × (t.main ≡ s.main)
  WorkerStep-listeners before after l _ h (begin same) = (
    listeners_of-at before after l launched serving h (ap ManagerSystem.workers same),
    ap ManagerSystem.main same,
  )
  WorkerStep-listeners before after l _ h (send e poll is_open room same) = ground arith
  WorkerStep-listeners before after l _ h (send_closed poll closed same) = ground arith
  WorkerStep-listeners before after l _ h (request http same) = ground arith
  WorkerStep-listeners before after l _ h (fail e same) = (
    listeners_of-at before after l serving (returned (some e)) h (ap ManagerSystem.workers same),
    ap ManagerSystem.main same,
  )
  WorkerStep-listeners before after l _ h (return off same) = (
    listeners_of-at before after l serving (returned none) h (ap ManagerSystem.workers same),
    ap ManagerSystem.main same,
  )
  WorkerStep-listeners before after l _ h (report e same) = (
    listeners_of-at before after l (returned (some e)) (returned none) h
        (ap ManagerSystem.workers same),
    ap ManagerSystem.main same,
  )
  WorkerStep-listeners before after l _ h (stopped same) = (
    listeners_of-at before after l (returned none) leaving h (ap ManagerSystem.workers same),
    ap ManagerSystem.main same,
  )
  WorkerStep-listeners before after l _ h (done same) = (
    listeners_of-at before after l leaving gone h (ap ManagerSystem.workers same),
    ap ManagerSystem.main same,
  )

  ManagerStep-AllLaunched :
      (ls : List Listener) {s t : ManagerSystem}
      → ManagerStep buffer s t
      → AllLaunched ls s
      → AllLaunched ls t
  ManagerStep-AllLaunched ls {s} (launch l rest here same) a =
      ap (λ (u : ManagerSystem). listeners_of u.workers ++ left u.main) same
      ∙ ap (λ front. front ++ rest) (map-append _ s.workers (at l launched ∷ []))
      ∙ append_assoc (listeners_of s.workers) (l ∷ []) rest
      ∙ sym (ap (λ m. listeners_of s.workers ++ left m) here)
      ∙ a
  ManagerStep-AllLaunched ls {s} {t} (launched_all here same) a =
      AllLaunched-same s t ls (ap (λ u. listeners_of u.workers) same)
        (ap (λ u. left u.main) same ∙ sym (ap left here)) a
  ManagerStep-AllLaunched ls {s} {t} (work before after l p here step) a =
      let (workers, main) = WorkerStep-listeners before after l p here step in
      AllLaunched-same s t ls workers (ap left main) a
  ManagerStep-AllLaunched ls (accept n e here is_open room same) a = ground arith
  ManagerStep-AllLaunched ls (accept_closed n here closed same) a = ground arith
  ManagerStep-AllLaunched ls (take_event e rest here same) a = ground arith
  ManagerStep-AllLaunched ls (cancel same) a = ground arith
  ManagerStep-AllLaunched ls {s} {t} (stop_all here off same) a =
      AllLaunched-same s t ls (ap (λ u. listeners_of u.workers) same)
        (ap (λ u. left u.main) same ∙ sym (ap left here)) a
  ManagerStep-AllLaunched ls {s} {t} (stop l rest here same) a =
      AllLaunched-same s t ls (ap (λ u. listeners_of u.workers) same)
        (ap (λ u. left u.main) same ∙ sym (ap left here)) a
  ManagerStep-AllLaunched ls {s} {t} (close here zero_count same) a =
      AllLaunched-same s t ls (ap (λ u. listeners_of u.workers) same)
        (ap (λ u. left u.main) same ∙ sym (ap left here)) a

  Reach-AllLaunched :
      (ls : List Listener) {s : ManagerSystem} → Reach buffer ls s → AllLaunched ls s
  unfolding start_manager
  Reach-AllLaunched ls begun = refl
  Reach-AllLaunched ls (next r step) = ManagerStep-AllLaunched ls step (Reach-AllLaunched ls r)

ends_of :
    (ws : List Worker)
    → map (λ (w : Worker). at w.listener gone) ws ≡ map (λ l. at l gone) (listeners_of ws)
ends_of [] = refl
ends_of (w ∷ ws) = ap (λ vs. at w.listener gone ∷ vs) (ends_of ws)

-- However the goroutines are interleaved, no goroutine that runs Start of a listener sends an event on
-- the closed channel. When the channel is closed, there is one goroutine for each registered listener,
-- in the order of their registration, all of them are at their end, and the hooks were told as many
-- times that a listener started, and as many times that one stopped.
pub closes_orderly :
    (buffer : ℕ) (listeners : List Listener) (s : ManagerSystem)
    → Reach buffer listeners s
    → (s.worker_panicked ≡ false)
      × ((s.closed ≡ false)
          ⊎ ((s.workers ≡ map (λ l. at l gone) listeners)
              × (started_calls s.hook_calls ≡ length listeners)
              × (stopped_calls s.hook_calls ≡ length listeners)))
closes_orderly buffer listeners s r = (
  workers_send_open buffer listeners s r,
  elim (Bool-cases s.closed) [
    | inr is_open ↦ inl is_open
    | inl closed ↦
        let (size, gone_all, starts, stops) = closed_last buffer listeners s r closed in
        let over = finished_of s.main (sym (Reach-IsOrderly buffer listeners r).ends ∙ closed) in
        let each =
          sym (append-nil (listeners_of s.workers))
          ∙ sym (ap (λ m. listeners_of s.workers ++ left m) over)
          ∙ Reach-AllLaunched buffer listeners r in
        inr (gone_all ∙ ends_of s.workers ∙ ap (map (λ l. at l gone)) each, starts, stops)
  ],
)
