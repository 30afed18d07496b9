-- ===== src/Server/Shutdown/Late.antt =====
-- cmd/server/server.go, run: what can still start when Wait of the pool has returned.
use mathlib.Core.Path.{subst}
use lp.Base.{ℕ, true, List, [], ◌∷◌, ◌++◌, Option, ◌≡◌, refl, sym, ◌∙◌, arith}
use lp.Runners.Pool.{Event}
use lp.Server.Chain.{
  PoolSystem, ready, holding, submitting, Work, emit, release, leave, take_event, submit_chain,
  submit_outside, acquire_chain, acquire_outside, give_up_chain, give_up_outside,
}
use lp.Server.Chain.Bounds.{IsCounted, Work-IsCounted, empty_of}
use lp.Server.Chain.Progress.{IsIdle}
use lp.Server.Shutdown.{
  RunPhase, listening, waiting, finishing, exited, RunSystem, Move, alive, work, enqueue,
  take_queued, cancel, leave_manager, leave_wait, exit, Runs, begun, next, Later, here, step,
}

no_element :
    {A : Type 0} (before : List A) (a : A) (after : List A) → [] ≡ before ++ (a ∷ after) → ⊥
no_element [] a after h = cc
no_element (b ∷ before) a after h = cc

busy : (p : List Event) → ready ≡ submitting p → ⊥
busy p h = cc

unheld : (p : Option (List Event)) → ready ≡ holding p → ⊥
unheld p h = cc

-- Wait has returned.
abbrev IsBehindWait : RunPhase → Type 0
IsBehindWait listening = ⊥
IsBehindWait waiting = ⊥
IsBehindWait finishing = Unit {0}
IsBehindWait exited = Unit {0}

module _ (max buffer capacity : ℕ) (plan : Event → Option (List Event)) where
  Move-IsCounted :
      {s t : RunSystem}
      → Move max buffer capacity plan s t
      → IsCounted max buffer s.pool
      → IsCounted max buffer t.pool
  Move-IsCounted (work p w same) c = ground (arith, same, Work-IsCounted max buffer plan w c)
  Move-IsCounted (enqueue p open_yet room same) c = ground arith
  Move-IsCounted (take_queued p rest idle h same) c = ground arith
  Move-IsCounted (cancel same) c = ground arith
  Move-IsCounted (leave_manager listens off same) c = ground arith
  Move-IsCounted (leave_wait waits done same) c = ground arith
  Move-IsCounted (exit over same) c = ground arith

  Runs-IsCounted : {s : RunSystem} → Runs max buffer capacity plan s → IsCounted max buffer s.pool
  Runs-IsCounted begun = record {
    tokens = refl;
    few = omega arith;
    room = omega arith;
    counted = refl;
  }
  Runs-IsCounted (next r (alive lives st)) = Move-IsCounted st (Runs-IsCounted r)

  -- Nothing runs, nothing is left in either channel, and Wait has returned.
  record IsOver (s : RunSystem) : Type 0 where
    pub idle : IsIdle s.pool
    pub none_queued : s.queue ≡ []
    pub behind : IsBehindWait s.phase

  idle_no_work : {s t : PoolSystem} → IsIdle s → Work max buffer plan s t → ⊥
  idle_no_work i (emit before after e rest h room same) =
      no_element before (e ∷ rest) after (sym i.no_runs ∙ h)
  idle_no_work i (release before after h same) = no_element before [] after (sym i.no_runs ∙ h)
  idle_no_work i (leave n h same) = absurd (omega (arith, i.none_leave, h))
  idle_no_work i (take_event e rest idle h same) = no_element [] e rest (sym i.no_events ∙ h)
  idle_no_work i (submit_chain p h same) = unheld p (sym i.chain_ready ∙ h)
  idle_no_work i (submit_outside p h same) = unheld p (sym i.outside_ready ∙ h)
  idle_no_work i (acquire_chain p h room same) = busy p (sym i.chain_ready ∙ h)
  idle_no_work i (acquire_outside p h room same) = busy p (sym i.outside_ready ∙ h)
  idle_no_work i (give_up_chain p h off same) = busy p (sym i.chain_ready ∙ h)
  idle_no_work i (give_up_outside p h off same) = busy p (sym i.outside_ready ∙ h)

  cancelled-IsOver :
      (s : RunSystem) → IsOver s → IsOver (record s { pool = record s.pool { cancelled = true } })
  cancelled-IsOver s o = record {
    idle = record {
      no_runs = o.idle.no_runs;
      none_leave = o.idle.none_leave;
      no_events = o.idle.no_events;
      chain_ready = o.idle.chain_ready;
      outside_ready = o.idle.outside_ready;
    };
    none_queued = o.none_queued;
    behind = o.behind;
  }

  Move-IsOver : {s t : RunSystem} → Move max buffer capacity plan s t → IsOver s → IsOver t
  Move-IsOver (work p w same) o = absurd (idle_no_work o.idle w)
  Move-IsOver (enqueue p open_yet room same) o = absurd (subst IsBehindWait open_yet o.behind)
  Move-IsOver (take_queued p rest idle h same) o =
      absurd (no_element [] p rest (sym o.none_queued ∙ h))
  Move-IsOver {s} (cancel same) o = subst IsOver (sym same) (cancelled-IsOver s o)
  Move-IsOver (leave_manager listens off same) o = absurd (subst IsBehindWait listens o.behind)
  Move-IsOver (leave_wait waits done same) o = absurd (subst IsBehindWait waits o.behind)
  Move-IsOver {s} (exit over same) o =
      subst IsOver (sym same) (record { idle = o.idle; none_queued = o.none_queued; behind = tt })

  Later-IsOver : {s t : RunSystem} → Later max buffer capacity plan s t → IsOver s → IsOver t
  Later-IsOver here o = o
  Later-IsOver (step l (alive lives st)) o = Move-IsOver st (Later-IsOver l o)

  -- If Wait returns at a time when neither channel holds an event and neither event loop holds one that
  -- it has received, no pipeline runs then, and none runs and no event comes after it.
  pub nothing_late :
      (s t : RunSystem)
      → Runs max buffer capacity plan s
      → s.phase ≡ waiting
      → s.pool.wg ≡ 0
      → s.pool.sink ≡ []
      → s.queue ≡ []
      → s.pool.chain ≡ ready
      → s.pool.outside ≡ ready
      → Later max buffer capacity plan (record s { phase = finishing }) t
      → (t.pool.running ≡ []) × (t.pool.sink ≡ []) × (t.queue ≡ [])
  nothing_late s t r waits none_count no_events none_queued chain_ready outside_ready l =
      let c = Runs-IsCounted r in
      let o = Later-IsOver l (record {
        idle = record {
          no_runs = empty_of s.pool.running (omega (arith, c.counted, none_count));
          none_leave = omega (arith, c.counted, none_count);
          no_events = no_events;
          chain_ready = chain_ready;
          outside_ready = outside_ready;
        };
        none_queued = none_queued;
        behind = tt;
      }) in
      (o.idle.no_runs, o.idle.no_events, o.none_queued)
