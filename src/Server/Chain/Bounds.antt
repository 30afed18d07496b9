-- ===== src/Server/Chain/Bounds.antt =====
-- internal/runners/pool.go: the tokens and the wait group count the pipelines.
use lp.Base.{
  ℕ, ◌+◌, ◌≤◌, List, [], ◌∷◌, Option, none, some, length, length-append, ap, ◌≡◌, refl, arith,
}
use lp.Runners.Pool.{Event}
use lp.Server.Chain.{
  Submitter, ready, submitting, PoolSystem, Work, emit, release, leave, take_event, submit_chain,
  submit_outside, holding, acquire_chain, acquire_outside, give_up_chain, give_up_outside, PoolStep,
  work, arrive, cancel, Reach, begun, next, submit_planned, added,
}

-- How many pipelines a goroutine has in Submit
abbrev pub waiting : Submitter → ℕ
waiting ready = 0
waiting (holding p) = 0
waiting (submitting p) = 1

pub waiting-submit_planned : (p : Option (List Event)) → waiting (submit_planned p) ≡ added p
waiting-submit_planned none = refl
waiting-submit_planned (some p) = refl

pub empty_of : {A : Type 0} (xs : List A) → length xs ≡ 0 → xs ≡ []
empty_of [] h = refl
empty_of (x ∷ xs) h = absurd (omega arith)

module _ (max buffer : ℕ) where
  -- `sem` counts the running pipelines, `wg` those and all that wait or leave.
  pub record IsCounted (s : PoolSystem) : Type 0 where
    pub tokens : s.sem ≡ length s.running
    pub few : s.sem ≤ max
    pub room : length s.sink ≤ buffer
    pub counted : s.wg ≡ length s.running + s.leaving + waiting s.chain + waiting s.outside

  module _ (plan : Event → Option (List Event)) where
    pub Work-IsCounted : {s t : PoolSystem} → Work max buffer plan s t → IsCounted s → IsCounted t
    Work-IsCounted {s} (emit before after e rest here room same) c = ground (
      arith,
      ap length here,
      length-append before ((e ∷ rest) ∷ after),
      length-append before (rest ∷ after),
      length-append s.sink (e ∷ []),
    )
    Work-IsCounted (release before after here same) c =
        ground
          (arith, ap length here, length-append before ([] ∷ after), length-append before after)
    Work-IsCounted (leave n here same) c = ground arith
    Work-IsCounted (take_event e rest idle here same) c = ground arith
    Work-IsCounted (submit_chain p here same) c = ground (arith, waiting-submit_planned p)
    Work-IsCounted (submit_outside p here same) c = ground (arith, waiting-submit_planned p)
    Work-IsCounted (acquire_chain p here room same) c = ground arith
    Work-IsCounted (acquire_outside p here room same) c = ground arith
    Work-IsCounted (give_up_chain p here off same) c = ground arith
    Work-IsCounted (give_up_outside p here off same) c = ground arith

    PoolStep-IsCounted :
        {s t : PoolSystem} → PoolStep max buffer plan s t → IsCounted s → IsCounted t
    PoolStep-IsCounted (work w) c = Work-IsCounted w c
    PoolStep-IsCounted (arrive p idle same) c = ground arith
    PoolStep-IsCounted (cancel same) c = ground arith

    pub Reach-IsCounted : {s : PoolSystem} → Reach max buffer plan s → IsCounted s
    Reach-IsCounted begun = record {
      tokens = refl;
      few = omega arith;
      room = omega arith;
      counted = refl;
    }
    Reach-IsCounted (next r st) = PoolStep-IsCounted st (Reach-IsCounted r)

    -- However the goroutines are interleaved, at most MaxConcurrent pipelines run at a time, each
    -- with one token in the semaphore, the sink holds no more events than it has room for, and the
    -- wait group counts the pipelines that run, leave, or wait in Submit.
    pub pool_bounded :
        (s : PoolSystem)
        → Reach max buffer plan s
        → (length s.running ≤ max)
          × (s.sem ≡ length s.running)
          × (length s.sink ≤ buffer)
          × (s.wg ≡ length s.running + s.leaving + waiting s.chain + waiting s.outside)
    pool_bounded s r =
        let c = Reach-IsCounted r in (omega arith, omega arith, omega arith, omega arith)

    -- Wait returns only when the counter is 0: then no pipeline runs or leaves, and neither goroutine
    -- has a pipeline in Submit.
    pub wait_returned :
        (s : PoolSystem)
        → Reach max buffer plan s
        → s.wg ≡ 0
        → (s.running ≡ []) × (s.leaving ≡ 0) × (waiting s.chain ≡ 0) × (waiting s.outside ≡ 0)
    wait_returned s r done =
        let c = Reach-IsCounted r in
        (empty_of s.running (omega arith), omega arith, omega arith, omega arith)
