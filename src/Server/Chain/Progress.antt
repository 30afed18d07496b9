-- ===== src/Server/Chain/Progress.antt =====
-- internal/runners/pool.go with the event loops of cmd/server/server.go: when they can go on.
use mathlib.Core.Path.{subst}
use lp.Base.{
  ℕ, zero, suc, ◌+◌, ◌≤◌, ◌<◌, false, List, [], ◌∷◌, ◌++◌, Option, length, ap, ◌≡◌, ◌⊎◌, inl, inr,
  refl, ◌∙◌, All, Bool-cases, arith,
}
use lp.Runners.Pool.{Event}
use lp.Server.Chain.{
  Submitter, ready, submitting, PoolSystem, Work, emit, release, leave, take_event, submit_chain,
  submit_outside, holding, acquire_chain, acquire_outside, give_up_chain, give_up_outside, Reach,
}
use lp.Server.Chain.Bounds.{IsCounted, Reach-IsCounted}

-- A pipeline that has an event to send
abbrev pub IsSending : List Event → Type 0
IsSending [] = ⊥
IsSending (e ∷ es) = Unit {0}

-- Nothing runs and nothing is left to do.
pub record IsIdle (s : PoolSystem) : Type 0 where
  pub no_runs : s.running ≡ []
  pub none_leave : s.leaving ≡ 0
  pub no_events : s.sink ≡ []
  pub chain_ready : s.chain ≡ ready
  pub outside_ready : s.outside ≡ ready

-- A goroutine that is not in dispatchPipeline in front of Submit
abbrev pub IsSettled : Submitter → Type 0
IsSettled ready = Unit {0}
IsSettled (holding p) = ⊥
IsSettled (submitting p) = Unit {0}

-- All tokens are taken by pipelines that have events to send, the sink is full, the goroutine that
-- reads the sink waits for a token, and the other one has nothing that it could still submit.
pub record IsDeadlocked (max buffer : ℕ) (s : PoolSystem) : Type 0 where
  pub all_taken : s.sem ≡ max
  pub all_send : All IsSending s.running
  pub full : length s.sink ≡ buffer
  pub none_leave : s.leaving ≡ 0
  pub held : List Event
  pub waits : s.chain ≡ submitting held
  pub settled : IsSettled s.outside
  pub not_cancelled : s.cancelled ≡ false

-- The first pipeline that has ended, or all have events to send.
find_ended :
    (runs : List (List Event))
    → ((before : List (List Event)) × (after : List (List Event)) × (runs ≡ before ++ ([] ∷ after)))
      ⊎ All IsSending runs
find_ended [] = inr tt
find_ended ([] ∷ runs) = inl ([], runs, refl)
find_ended ((e ∷ es) ∷ runs) = elim (find_ended runs) [
  | inl (before, after, same) ↦ inl ((e ∷ es) ∷ before, after, ap (λ l. (e ∷ es) ∷ l) same)
  | inr all ↦ inr (tt, all)
]

none_ended : (before after : List (List Event)) → All IsSending (before ++ ([] ∷ after)) → ⊥
none_ended [] after (ended, rest) = ended
none_ended (p ∷ before) after (first, rest) = none_ended before after rest

List-cases : {A : Type 0} (xs : List A) → (xs ≡ []) ⊎ ((x : A) × (rest : List A) × (xs ≡ x ∷ rest))
List-cases [] = inl refl
List-cases (x ∷ xs) = inr (x, xs, refl)

Submitter-cases :
    (w : Submitter)
    → (w ≡ ready)
      ⊎ (((p : Option (List Event)) × (w ≡ holding p)) ⊎ ((p : List Event) × (w ≡ submitting p)))
Submitter-cases ready = inl refl
Submitter-cases (holding p) = inr (inl (p, refl))
Submitter-cases (submitting p) = inr (inr (p, refl))

IsSettled-cases : (w : Submitter) → ((p : Option (List Event)) × (w ≡ holding p)) ⊎ IsSettled w
IsSettled-cases ready = inr tt
IsSettled-cases (holding p) = inl (p, refl)
IsSettled-cases (submitting p) = inr tt

leaving-cases : (n : ℕ) → (n ≡ 0) ⊎ ((m : ℕ) × (n ≡ m + 1))
leaving-cases zero = inl refl
leaving-cases (suc m) = inr (m, omega arith)

lt-cases : (m n : ℕ) → (m < n) ⊎ (n ≤ m)
lt-cases m n = omega arith

-- The first pipeline has an event to send.
first_sends :
    (p : List Event) (rest : List (List Event))
    → All IsSending (p ∷ rest)
    → (e : Event) × (es : List Event) × (p ≡ e ∷ es)
first_sends [] rest (ended, others) = absurd ended
first_sends (e ∷ es) rest all = (e, es, refl)

module _ (max buffer : ℕ) (plan : Event → Option (List Event)) where
  abbrev pub CanWork : PoolSystem → Type 0
  CanWork s = (t : PoolSystem) × Work max buffer plan s t

  -- A deadlocked system does nothing by itself.
  pub deadlocked_stays :
      {s t : PoolSystem} → IsDeadlocked max buffer s → Work max buffer plan s t → ⊥
  deadlocked_stays d (emit before after e rest here room same) = omega arith
  deadlocked_stays d (release before after here same) =
      none_ended before after (subst (All IsSending) here d.all_send)
  deadlocked_stays d (leave n here same) = omega arith
  deadlocked_stays d (take_event e rest idle here same) = ground arith
  deadlocked_stays d (submit_chain p here same) = ground arith
  deadlocked_stays d (submit_outside p here same) = subst IsSettled here d.settled
  deadlocked_stays d (acquire_chain p here room same) = omega arith
  deadlocked_stays d (acquire_outside p here room same) = omega arith
  deadlocked_stays d (give_up_chain p here off same) = ground arith
  deadlocked_stays d (give_up_outside p here off same) = ground arith

  module _ (s : PoolSystem) (some_tokens : 0 < max) (some_room : 0 < buffer)
      (counted : IsCounted max buffer s) (settled : IsSettled s.outside) where
    abbrev Goal : Type 0
    Goal = CanWork s ⊎ (IsIdle s ⊎ IsDeadlocked max buffer s)

    -- The sink is full, or no pipeline runs.
    abbrev IsBlocked : Type 0
    IsBlocked = (length s.sink ≡ buffer) ⊎ (s.running ≡ [])

    chain_waits :
        s.leaving ≡ 0
        → All IsSending s.running
        → IsBlocked
        → (p : List Event) → s.chain ≡ submitting p
        → Goal
    chain_waits none_leave all blocked p waits = elim (lt-cases s.sem max) [
      | inl room ↦ inl (_, acquire_chain p waits room refl)
      | inr full ↦ elim (Bool-cases s.cancelled) [
        | inl off ↦ inl (_, give_up_chain p waits off refl)
        | inr on ↦ elim blocked [
          | inl no_room ↦ inr (
              inr (record {
                all_taken = omega (arith, counted.few);
                all_send = all;
                full = no_room;
                none_leave = none_leave;
                held = p;
                waits = waits;
                settled = settled;
                not_cancelled = on;
              }))
          | inr no_runs ↦ absurd (omega (arith, counted.tokens, ap length no_runs))
        ]
      ]
    ]

    chain_ready : s.leaving ≡ 0 → IsBlocked → s.chain ≡ ready → Goal
    chain_ready none_leave blocked idle = elim (List-cases s.sink) [
      | inr (e, rest, here) ↦ inl (_, take_event e rest idle here refl)
      | inl empty ↦ elim blocked [
        | inl no_room ↦ absurd (omega (arith, ap length empty))
        | inr no_runs ↦ elim (Submitter-cases s.outside) [
          | inl idle' ↦ inr (
              inl (record {
                no_runs = no_runs;
                none_leave = none_leave;
                no_events = empty;
                chain_ready = idle;
                outside_ready = idle';
              }))
          | inr (inl (p, holds)) ↦ inl (_, submit_outside p holds refl)
          | inr (inr (p, waits)) ↦
              inl
                (_, acquire_outside p waits (omega (arith, counted.tokens, ap length no_runs)) refl)
        ]
      ]
    ]

    blocked_case : s.leaving ≡ 0 → All IsSending s.running → IsBlocked → Goal
    blocked_case none_leave all blocked = elim (Submitter-cases s.chain) [
      | inl idle ↦ chain_ready none_leave blocked idle
      | inr (inl (p, holds)) ↦ inl (_, submit_chain p holds refl)
      | inr (inr (p, waits)) ↦ chain_waits none_leave all blocked p waits
    ]

    sending_case : s.leaving ≡ 0 → All IsSending s.running → Goal
    sending_case none_leave all = elim (List-cases s.running) [
      | inl no_runs ↦ blocked_case none_leave all (inr no_runs)
      | inr (p, rest, here) ↦
          let (e, es, first) = first_sends p rest (subst (All IsSending) here all) in
          elim (lt-cases (length s.sink) buffer) [
            | inl room ↦ inl (_, emit [] rest e es (here ∙ ap (λ l. l ∷ rest) first) room refl)
            | inr full ↦ blocked_case none_leave all (inl (omega (arith, counted.room)))
          ]
    ]

    progress_counted : Goal
    progress_counted = elim (leaving-cases s.leaving) [
      | inr (n, here) ↦ inl (_, leave n here refl)
      | inl none_leave ↦ elim (find_ended s.running) [
        | inl (before, after, here) ↦ inl (_, release before after here refl)
        | inr all ↦ sending_case none_leave all
      ]
    ]

  -- Where MaxConcurrent and the capacity of the sink are not 0, a reachable system can go on by
  -- itself, or is idle, or is deadlocked: all tokens are taken by pipelines with events to send, the
  -- sink is full, and its reader waits in Submit for a token; there is no other way to get stuck.
  pub progress :
      (s : PoolSystem)
      → 0 < max
      → 0 < buffer
      → Reach max buffer plan s
      → CanWork s ⊎ (IsIdle s ⊎ IsDeadlocked max buffer s)
  progress s some_tokens some_room r = elim (IsSettled-cases s.outside) [
    | inl (p, holds) ↦ inl (_, submit_outside p holds refl)
    | inr settled ↦
        progress_counted s some_tokens some_room (Reach-IsCounted max buffer plan r) settled
  ]
