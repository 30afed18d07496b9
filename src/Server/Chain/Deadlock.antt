-- ===== src/Server/Chain/Deadlock.antt =====
-- internal/runners/pool.go and handlePipelineEvents: pipelines that send many events stop the server.
use mathlib.Core.Path.{subst}
use lp.Base.{
  ℕ, zero, suc, ◌+◌, ◌-◌, ◌≤◌, ◌<◌, false, List, [], ◌∷◌, ◌++◌, Option, some, length, length-append,
  ap, ◌≡◌, refl, sym, All, replicate, arith,
}
use lp.Runners.Pool.{Event}
use lp.Server.Chain.{
  submitting, PoolSystem, initial, emit, take_event, submit_chain, submit_outside, acquire_outside,
  work, arrive, Reach, begun, next, submit_planned, added,
}
use lp.Server.Chain.Progress.{IsSending, IsSettled, IsDeadlocked, CanWork, deadlocked_stays}

module _ (max buffer : ℕ) (plan : Event → Option (List Event)) where
  -- The other pipelines hold all tokens but one and have events to send; the reader waits.
  record IsHeld (s : PoolSystem) (others : List (List Event)) : Type 0 where
    pub all_taken : s.sem ≡ max
    pub others_send : All IsSending others
    pub none_leave : s.leaving ≡ 0
    pub held : List Event
    pub waits : s.chain ≡ submitting held
    pub settled : IsSettled s.outside
    pub not_cancelled : s.cancelled ≡ false

  -- The first pipeline fills the sink.
  fill_sink :
      (k : ℕ) (p : List Event) (others : List (List Event)) (s : PoolSystem)
      → Reach max buffer plan s
      → IsHeld s others
      → s.running ≡ p ∷ others
      → length s.sink + k ≡ buffer
      → k < length p
      → (t : PoolSystem) × Reach max buffer plan t × IsDeadlocked max buffer t
  fill_sink k [] others s r held here room long = absurd (omega arith)
  fill_sink zero (e ∷ p) others s r held here room long = (
    s,
    r,
    record {
      all_taken = held.all_taken;
      all_send = subst (All IsSending) (sym here) (tt, held.others_send);
      full = omega arith;
      none_leave = held.none_leave;
      held = held.held;
      waits = held.waits;
      settled = held.settled;
      not_cancelled = held.not_cancelled;
    },
  )
  fill_sink (suc k) (e ∷ p) others s r held here room long =
      let t : PoolSystem = record s { running = p ∷ others; sink = s.sink ++ (e ∷ []) } in
      fill_sink k p others t (next r (work (emit [] others e p here (omega arith) refl)))
        (record {
          all_taken = held.all_taken;
          others_send = held.others_send;
          none_leave = held.none_leave;
          held = held.held;
          waits = held.waits;
          settled = held.settled;
          not_cancelled = held.not_cancelled;
        })
        refl (omega (arith, length-append s.sink (e ∷ []))) (omega arith)

  -- `k` pipelines of the same kind are running.
  abbrev started : List Event → ℕ → PoolSystem
  started p k = record initial { sem = k; wg = k; running = replicate k p }

  Reach-started : (p : List Event) (k : ℕ) → k ≤ max → Reach max buffer plan (started p k)
  Reach-started p zero h = begun
  Reach-started p (suc k) h =
      next
        (next (next (Reach-started p k (omega arith)) (arrive (some p) refl refl))
          (work (submit_outside (some p) refl refl)))
        (work (acquire_outside p refl (omega arith) (ground arith)))

  All-replicate : (p : List Event) (k : ℕ) → IsSending p → All IsSending (replicate k p)
  All-replicate p zero h = tt
  All-replicate p (suc k) h = (h, All-replicate p k h)

  -- The first of the pipelines sends its event, and the reader takes it.
  sent : Event → List Event → ℕ → PoolSystem
  sent e rest m = record (started (e ∷ rest) (suc m)) {
    running = rest ∷ replicate m (e ∷ rest);
    sink = e ∷ [];
  }

  taken : Event → List Event → ℕ → PoolSystem
  unfolding sent
  taken e rest m = record (sent e rest m) {
    sink = [];
    chain = submit_planned (plan e);
    wg = suc m + added (plan e);
  }

  Reach-taken :
      (e : Event) (rest : List Event) (m : ℕ)
      → suc m ≤ max
      → 0 < buffer
      → Reach max buffer plan (taken e rest m)
  unfolding taken
  Reach-taken e rest m h room =
      next
        (next
          (next (Reach-started (e ∷ rest) (suc m) h)
            (work (emit [] (replicate m (e ∷ rest)) e rest refl room refl)))
          (work (take_event e [] refl refl refl)))
        (work (submit_chain (plan e) refl refl))

  deadlock_from :
      (e : Event) (rest q : List Event) (m : ℕ)
      → suc m ≡ max
      → 0 < buffer
      → plan e ≡ some q
      → buffer < length rest
      → (t : PoolSystem) × Reach max buffer plan t × IsDeadlocked max buffer t
  unfolding taken
  deadlock_from e rest q m all room planned long =
      fill_sink buffer rest (replicate m (e ∷ rest)) (taken e rest m)
        (Reach-taken e rest m (omega arith) room)
        (record {
          all_taken = all;
          others_send = All-replicate (e ∷ rest) m tt;
          none_leave = refl;
          held = q;
          waits = ap submit_planned planned;
          settled = tt;
          not_cancelled = refl;
        })
        refl (omega arith) long

  -- If a pipeline sends an event that starts another one, and more events behind it than the sink has
  -- room for, then a server that runs it as often as it has tokens can reach a state in which no
  -- goroutine goes on: pipelines that wait for the sink hold all tokens, and the reader of the
  -- sink waits for a token.
  pub pool_deadlocks :
      (e : Event) (rest q : List Event)
      → 0 < max
      → 0 < buffer
      → plan e ≡ some q
      → buffer < length rest
      → (t : PoolSystem) × Reach max buffer plan t
        × IsDeadlocked max buffer t
        × ¬ CanWork max buffer plan t
  pool_deadlocks e rest q some_tokens some_room planned long =
      let (t, r, d) = deadlock_from e rest q (max - 1) (omega arith) some_room planned long in
      (t, r, d, λ work. deadlocked_stays max buffer plan d work.1)
