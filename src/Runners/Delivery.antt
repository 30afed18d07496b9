-- ===== src/Runners/Delivery.antt =====
-- internal/runners/hooks.go: what an emit does to the state of the callbacks and to the tracker.
use lp.Base.{
  ℕ, ◌+◌, ◌%◌, ◌^◌, ◌<◌, String, List, [], ◌∷◌, ◌++◌, Option, ◌≡◌, refl, ◌∙◌, ap, All, arith,
}
use lp.Hooks.{Registry}
use lp.Hooks as Registries
use lp.Observability.Tracker.{HookTracker, add_one, call_handler, recover_panic, track_emit}
use lp.Runners.Hooks.{Callback, Outcome, returned, panicked, call_listener, call_listeners, fire}

-- What a callback leaves, whether it returns or panics.
abbrev pub left_by : {W : Type 0} → Outcome W → W
left_by (returned w) = w
left_by (panicked value w) = w

abbrev pub panics_of : {W : Type 0} → Outcome W → ℕ
panics_of (returned w) = 0
panics_of (panicked value w) = 1

abbrev pub Handler : Type 0 → Type 0
Handler W = Option (ℕ → String → String → W → W)

-- The state after one callback: a panic goes to the handler.
unfoldable pub settle : {W : Type 0} → Handler W → String → ℕ → Outcome W → W
settle handler label now (returned w) = w
settle handler label now (panicked value w) = call_handler handler now label value w

module _ {A W : Type 0} (handler : Handler W) (label : String) (now : ℕ) (a : A) where
  -- The callbacks one after the other, each from the state that the one before has left.
  unfoldable pub deliver : List (Callback A W) → W → W
  deliver [] w = w
  deliver (fn ∷ fns) w = deliver fns (settle handler label now (fn now a w))

  -- How many of them panic.
  unfoldable pub count_panics : List (Callback A W) → W → ℕ
  count_panics [] w = 0
  count_panics (fn ∷ fns) w =
      panics_of (fn now a w) + count_panics fns (settle handler label now (fn now a w))

  pub deliver-append :
      (xs ys : List (Callback A W)) (w : W) → deliver (xs ++ ys) w ≡ deliver ys (deliver xs w)
  unfolding deliver
  deliver-append [] ys w = refl
  deliver-append (x ∷ xs) ys w = deliver-append xs ys _

module _ {A W : Type 0} where
  call_listener_lem :
      (fn : Callback A W) (now : ℕ) (a : A) (t : HookTracker W) (w : W)
      → (call_listener fn now a t w).1 ≡ settle t.on_panic t.label now (fn now a w)
  unfolding call_listener recover_panic settle
  call_listener_lem fn now a t w = ground arith

  call_listener_tracker :
      (fn : Callback A W) (now : ℕ) (a : A) (t : HookTracker W) (w : W)
      → t.panics_caught < 2 ^ 64
      → (call_listener fn now a t w).0
        ≡ record t { panics_caught = (t.panics_caught + panics_of (fn now a w)) % 2 ^ 64 }
  unfolding call_listener recover_panic
  call_listener_tracker fn now a t w h = ground arith

  call_listener_keeps :
      (fn : Callback A W) (now : ℕ) (a : A) (t : HookTracker W) (w : W)
      → ((call_listener fn now a t w).0.on_panic ≡ t.on_panic)
        × ((call_listener fn now a t w).0.label ≡ t.label)
  unfolding call_listener recover_panic
  call_listener_keeps fn now a t w = ground arith

  call_listeners_lem :
      (fns : List (Callback A W)) (now : ℕ) (a : A) (t : HookTracker W) (w : W)
      → (call_listeners fns now a t w).1 ≡ deliver t.on_panic t.label now a fns w
  unfolding call_listeners deliver
  call_listeners_lem [] now a t w = refl
  call_listeners_lem (fn ∷ fns) now a t w =
      call_listeners_lem fns now a _ _
      ∙ rw (
        (call_listener_keeps fn now a t w).0,
        (call_listener_keeps fn now a t w).1,
        call_listener_lem fn now a t w,
      )

  call_listeners_keeps :
      (fns : List (Callback A W)) (now : ℕ) (a : A) (t : HookTracker W) (w : W)
      → ((call_listeners fns now a t w).0.on_panic ≡ t.on_panic)
        × ((call_listeners fns now a t w).0.label ≡ t.label)
  unfolding call_listeners
  call_listeners_keeps [] now a t w = (refl, refl)
  call_listeners_keeps (fn ∷ fns) now a t w =
      let (p, q) = call_listener_keeps fn now a t w in
      let (p', q') =
        call_listeners_keeps fns now a (call_listener fn now a t w).0
          (call_listener fn now a t w).1 in
      (p' ∙ p, q' ∙ q)

  call_listeners_panics :
      (fns : List (Callback A W)) (now : ℕ) (a : A) (t : HookTracker W) (w : W)
      → t.panics_caught < 2 ^ 64
      → ((call_listeners fns now a t w).0.panics_caught
          ≡ (t.panics_caught + count_panics t.on_panic t.label now a fns w) % 2 ^ 64)
        × ((call_listeners fns now a t w).0.emit_count ≡ t.emit_count)
  unfolding call_listeners count_panics
  call_listeners_panics [] now a t w h = (omega arith, refl)
  call_listeners_panics (fn ∷ fns) now a t w h = ground (
    arith,
    call_listeners_panics fns now a (call_listener fn now a t w).0 (call_listener fn now a t w).1,
    call_listener_keeps fn now a t w,
    call_listener_lem fn now a t w,
    call_listener_tracker fn now a t w,
  )

  -- An emit calls every registered callback once, in the order of registration, each from the state
  -- that the one before has left: one that panics hands its panic to the handler and stops none of
  -- those behind it. The tracker counts one emit more and as many panics as there were, modulo
  -- 2 ^ 64, for a tracker whose count of panics is a uint64.
  pub fire_lem :
      (r : Registry (Callback A W)) (now : ℕ) (a : A) (t : HookTracker W) (w : W)
      → t.panics_caught < 2 ^ 64
      → ((fire r now a t w).1 ≡ deliver t.on_panic t.label now a r.listeners w)
        × ((fire r now a t w).0.emit_count ≡ (t.emit_count + 1) % 2 ^ 64)
        × ((fire r now a t w).0.panics_caught
            ≡ (t.panics_caught + count_panics t.on_panic t.label now a r.listeners w) % 2 ^ 64)
  unfolding fire Registries.emit track_emit
  fire_lem r now a t w h = (
    call_listeners_lem r.listeners now a (record t { emit_count = add_one t.emit_count }) w,
    (call_listeners_panics r.listeners now a (record t { emit_count = add_one t.emit_count }) w
        h).1,
    (call_listeners_panics r.listeners now a (record t { emit_count = add_one t.emit_count }) w
        h).0,
  )

  -- The state that an emit leaves, for any tracker, whose handler and name stay.
  pub fire_state :
      (r : Registry (Callback A W)) (now : ℕ) (a : A) (t : HookTracker W) (w : W)
      → ((fire r now a t w).1 ≡ deliver t.on_panic t.label now a r.listeners w)
        × ((fire r now a t w).0.on_panic ≡ t.on_panic)
        × ((fire r now a t w).0.label ≡ t.label)
  unfolding fire Registries.emit track_emit
  fire_state r now a t w = (
    call_listeners_lem r.listeners now a (record t { emit_count = add_one t.emit_count }) w,
    (call_listeners_keeps r.listeners now a (record t { emit_count = add_one t.emit_count }) w).0,
    (call_listeners_keeps r.listeners now a (record t { emit_count = add_one t.emit_count }) w).1,
  )

-- A part `view` of the state that only some callbacks change.
module _ {W V : Type 0} (view : W → V) where
  abbrev pub IsNeutral : {A : Type 0} → Callback A W → Type 0
  IsNeutral {A} fn = (now : ℕ) (a : A) (w : W) → view (left_by (fn now a w)) ≡ view w

  abbrev pub IsQuiet : Handler W → Type 0
  IsQuiet handler =
      (label : String) (now : ℕ) (value : String) (w : W)
      → view (call_handler handler now label value w) ≡ view w

  view-settle :
      (handler : Handler W) (label : String) (now : ℕ) (o : Outcome W)
      → IsQuiet handler
      → view (settle handler label now o) ≡ view (left_by o)
  unfolding settle
  view-settle handler label now (returned w) q = refl
  view-settle handler label now (panicked value w) q = q label now value w

module _ {A W V : Type 0} (view : W → V) (handler : Handler W) (label : String) (now : ℕ) (a : A)
    (quiet : IsQuiet view handler) where
  view-deliver_neutral :
      (fns : List (Callback A W)) (w : W)
      → All (IsNeutral view) fns
      → view (deliver handler label now a fns w) ≡ view w
  unfolding deliver
  view-deliver_neutral [] w n = refl
  view-deliver_neutral (fn ∷ fns) w (n, ns) =
      view-deliver_neutral fns _ ns
      ∙ view-settle view handler label now (fn now a w) quiet
      ∙ n now a w

  -- Among neutral callbacks only one acts on the view.
  pub view-deliver :
      (pre post : List (Callback A W)) (fn : Callback A W) (act : V → V) (w : W)
      → All (IsNeutral view) pre
      → All (IsNeutral view) post
      → ((s : W) → view (left_by (fn now a s)) ≡ act (view s))
      → view (deliver handler label now a (pre ++ (fn ∷ post)) w) ≡ act (view w)
  view-deliver pre post fn act w npre npost acts =
      rw (deliver-append handler label now a pre (fn ∷ post) w) (
        unfold deliver in
        view-deliver_neutral post _ npost
        ∙ view-settle view handler label now (fn now a before) quiet
        ∙ acts before
        ∙ ap act (view-deliver_neutral pre w npre))
    where
      before : W
      before = deliver handler label now a pre w
