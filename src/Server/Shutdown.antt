-- ===== src/Server/Shutdown.antt =====
-- cmd/server/server.go, run, and the end of main.go, around the pool and the event loops of
-- Server/Chain: the events that the listeners have sent and handleListenerEvents has not yet received,
-- and where run itself is. The listener manager is as in Listener/Lifecycle: its Start returns when the
-- context is cancelled, after the last send of its listeners, and leaves in the channel what was not
-- received.
mod Late
mod Tests
use lp.Base.{ℕ, ◌+◌, ◌<◌, Bool, true, false, List, [], ◌∷◌, ◌++◌, Option, length, ◌≡◌}
use lp.Runners.Pool.{Event}
use lp.Server.Chain.{PoolSystem, initial, Submitter, ready, holding, Work}

-- Where run is: in the manager's Start, in Wait of the pool, behind it, where it stops the API and
-- prints; and main has returned, which ends the process with all its goroutines.
pub data RunPhase : Type 0 where
  listening : RunPhase
  waiting : RunPhase
  finishing : RunPhase
  exited : RunPhase

abbrev pub IsAlive : RunPhase → Type 0
IsAlive listening = Unit {0}
IsAlive waiting = Unit {0}
IsAlive finishing = Unit {0}
IsAlive exited = ⊥

-- `queue` is what the channel of the listeners' events holds: for each event, what the pipeline that
-- it starts will send, none where dispatchPipeline returns before Submit.
pub record RunSystem : Type 0 where
  pub pool : PoolSystem
  pub queue : List (Option (List Event))
  pub phase : RunPhase

abbrev pub begin_run : RunSystem
begin_run = record { pool = initial; queue = []; phase = listening }

module _ (max buffer capacity : ℕ) (plan : Event → Option (List Event)) where
  pub data Move (s t : RunSystem) : Type 0 where
    -- A step of the pool, of a running pipeline or of an event loop inside Submit
    work : (p : PoolSystem) → Work max buffer plan s.pool p → t ≡ record s { pool = p } → Move s t
    -- A listener sends an event.
    enqueue :
        (p : Option (List Event))
        → s.phase ≡ listening
        → length s.queue < capacity
        → t ≡ record s { queue = s.queue ++ (p ∷ []) }
        → Move s t
    -- handleListenerEvents receives the next event.
    take_queued :
        (p : Option (List Event)) (rest : List (Option (List Event)))
        → s.pool.outside ≡ ready
        → s.queue ≡ p ∷ rest
        → t ≡ record s { queue = rest; pool = record s.pool { outside = holding p } }
        → Move s t
    -- A signal comes.
    cancel : t ≡ record s { pool = record s.pool { cancelled = true } } → Move s t
    -- mgr.Start returns.
    leave_manager :
        s.phase ≡ listening → s.pool.cancelled ≡ true → t ≡ record s { phase = waiting } → Move s t
    -- pool.Wait returns.
    leave_wait : s.phase ≡ waiting → s.pool.wg ≡ 0 → t ≡ record s { phase = finishing } → Move s t
    -- run returns to main, which returns.
    exit : s.phase ≡ finishing → t ≡ record s { phase = exited } → Move s t

  -- Nothing goes on when the process has ended.
  pub data RunStep (s t : RunSystem) : Type 0 where
    alive : IsAlive s.phase → Move s t → RunStep s t

  pub data Runs : RunSystem → Type 0 where
    begun : Runs begin_run
    next : {s t : RunSystem} → Runs s → RunStep s t → Runs t

  -- What can come after a state
  pub data Later (s : RunSystem) : RunSystem → Type 0 where
    here : Later s s
    step : {t u : RunSystem} → Later s t → RunStep t u → Later s u
