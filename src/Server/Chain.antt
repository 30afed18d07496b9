-- ===== src/Server/Chain.antt =====
-- internal/runners/pool.go, Submit, Wait and the sends of emitEvents, with the two goroutines of
-- cmd/server/server.go that submit: handlePipelineEvents, which reads the sink, and
-- handleListenerEvents. They run interleaved in any order. A running pipeline is the list of the
-- events that it has yet to send; what its commands do in between takes some time and no more.
pub mod Bounds
pub mod Progress
mod Deadlock
mod Tests
use lp.Base.{
  ℕ, ◌+◌, ◌-◌, ◌<◌, Bool, true, false, List, [], ◌∷◌, ◌++◌, Option, none, some, length, ◌≡◌,
}
use lp.Runners.Pool.{Event}

-- What a submitting goroutine does: it waits for its next event; it holds one that it has received,
-- in dispatchPipeline and in front of Submit's wg.Add(1); or it waits in the select of Submit with a
-- pipeline.
pub data Submitter : Type 0 where
  ready : Submitter
  holding : Option (List Event) → Submitter
  submitting : List Event → Submitter

-- The pool: the tokens in `sem`, the counter `wg`, the pipelines between acquiring and releasing
-- a token, how many goroutines have released theirs and not yet called wg.Done, the sink, the
-- two goroutines, and whether the context is cancelled.
pub record PoolSystem : Type 0 where
  pub sem : ℕ
  pub wg : ℕ
  pub running : List (List Event)
  pub leaving : ℕ
  pub sink : List Event
  pub chain : Submitter
  pub outside : Submitter
  pub cancelled : Bool

abbrev pub initial : PoolSystem
initial = record {
  sem = 0;
  wg = 0;
  running = [];
  leaving = 0;
  sink = [];
  chain = ready;
  outside = ready;
  cancelled = false;
}

-- What follows the receipt of an event: wg.Add(1) of Submit, unless dispatchPipeline returns before.
abbrev pub submit_planned : Option (List Event) → Submitter
submit_planned none = ready
submit_planned (some p) = submitting p

abbrev pub added : Option (List Event) → ℕ
added none = 0
added (some p) = 1

-- `max` is MaxConcurrent, `buffer` the capacity of the sink, `plan` what a dispatched pipeline will
-- send, none where dispatchPipeline returns before Submit.
module _ (max buffer : ℕ) (plan : Event → Option (List Event)) where
  -- What the goroutines of the server do by themselves.
  pub data Work (s t : PoolSystem) : Type 0 where
    -- emitEvents sends an event: there is room in the sink.
    emit :
        (before after : List (List Event)) (e : Event) (rest : List Event)
        → s.running ≡ before ++ ((e ∷ rest) ∷ after)
        → length s.sink < buffer
        → t ≡ record s { running = before ++ (rest ∷ after); sink = s.sink ++ (e ∷ []) }
        → Work s t
    -- The run has ended: `<-p.sem`, the deferred call that comes first.
    release :
        (before after : List (List Event))
        → s.running ≡ before ++ ([] ∷ after)
        → t ≡ record s { running = before ++ after; sem = s.sem - 1; leaving = s.leaving + 1 }
        → Work s t
    -- wg.Done()
    leave : (n : ℕ) → s.leaving ≡ n + 1 → t ≡ record s { leaving = n; wg = s.wg - 1 } → Work s t
    -- handlePipelineEvents receives the next event.
    take_event :
        (e : Event) (rest : List Event)
        → s.chain ≡ ready
        → s.sink ≡ e ∷ rest
        → t ≡ record s { sink = rest; chain = holding (plan e) }
        → Work s t
    -- dispatchPipeline of a received event comes to wg.Add(1), or returns.
    submit_chain :
        (p : Option (List Event))
        → s.chain ≡ holding p
        → t ≡ record s { chain = submit_planned p; wg = s.wg + added p }
        → Work s t
    submit_outside :
        (p : Option (List Event))
        → s.outside ≡ holding p
        → t ≡ record s { outside = submit_planned p; wg = s.wg + added p }
        → Work s t
    -- The first case of the select: a token fits into `sem`.
    acquire_chain :
        (p : List Event)
        → s.chain ≡ submitting p
        → s.sem < max
        → t ≡ record s { chain = ready; sem = s.sem + 1; running = p ∷ s.running }
        → Work s t
    acquire_outside :
        (p : List Event)
        → s.outside ≡ submitting p
        → s.sem < max
        → t ≡ record s { outside = ready; sem = s.sem + 1; running = p ∷ s.running }
        → Work s t
    -- The second case: ctx.Done(), and wg.Done().
    give_up_chain :
        (p : List Event)
        → s.chain ≡ submitting p
        → s.cancelled ≡ true
        → t ≡ record s { chain = ready; wg = s.wg - 1 }
        → Work s t
    give_up_outside :
        (p : List Event)
        → s.outside ≡ submitting p
        → s.cancelled ≡ true
        → t ≡ record s { outside = ready; wg = s.wg - 1 }
        → Work s t

  -- What comes from outside: handleListenerEvents receives an event, or the context is cancelled.
  pub data PoolStep (s t : PoolSystem) : Type 0 where
    work : Work s t → PoolStep s t
    arrive :
        (p : Option (List Event))
        → s.outside ≡ ready
        → t ≡ record s { outside = holding p }
        → PoolStep s t
    cancel : t ≡ record s { cancelled = true } → PoolStep s t

  pub data Reach : PoolSystem → Type 0 where
    begun : Reach initial
    next : {s t : PoolSystem} → Reach s → PoolStep s t → Reach t
