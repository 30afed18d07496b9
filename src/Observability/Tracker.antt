-- ===== src/Observability/Tracker.antt =====
-- internal/observability/tracker.go. `W` is the state that a panic handler acts on; it is given
-- the time that time.Now() returns while it runs. The atomic
-- counters are `uint64`, so they wrap. A panic value is given by its printed text.
use lp.Base.{ℕ, ◌+◌, ◌%◌, ◌^◌, String, Option, none, some}

-- Stats
pub record Stats : Type 0 where
  pub name : String
  pub listeners : ℕ
  pub emit_count : ℕ
  pub panics_caught : ℕ

-- HookTracker
pub record HookTracker (W : Type 0) : Type 0 where
  pub label : String
  pub emit_count : ℕ
  pub panics_caught : ℕ
  pub on_panic : Option (ℕ → String → String → W → W)

-- atomic.Uint64's Add(1)
abbrev pub add_one : ℕ → ℕ
add_one n = (n + 1) % 2 ^ 64

module _ {W : Type 0} where
  -- NewHookTracker
  unfoldable pub new_hook_tracker : String → HookTracker W
  new_hook_tracker name = record {
    label = name;
    emit_count = 0;
    panics_caught = 0;
    on_panic = none;
  }

  -- SetPanicHandler
  unfoldable pub set_panic_handler : (ℕ → String → String → W → W) → HookTracker W → HookTracker W
  set_panic_handler fn t = record t { on_panic = some fn }

  -- TrackEmit
  unfoldable pub track_emit : HookTracker W → HookTracker W
  track_emit t = record t { emit_count = add_one t.emit_count }

  unfoldable pub call_handler : Option (ℕ → String → String → W → W) → ℕ → String → String → W → W
  call_handler none now name value w = w
  call_handler (some fn) now name value w = fn now name value w

  -- RecoverPanic: the argument is what `recover()` returns.
  unfoldable pub recover_panic : ℕ → HookTracker W → Option String → W → HookTracker W × W
  unfolding call_handler
  recover_panic now t none w = (t, w)
  recover_panic now t (some value) w = (
    record t { panics_caught = add_one t.panics_caught },
    call_handler t.on_panic now t.label value w,
  )

  -- HookTracker.Stats
  unfoldable pub stats : HookTracker W → ℕ → Stats
  stats t listener_count = record {
    name = t.label;
    listeners = listener_count;
    emit_count = t.emit_count;
    panics_caught = t.panics_caught;
  }

  -- Reset
  unfoldable pub reset : HookTracker W → HookTracker W
  reset t = record t { emit_count = 0; panics_caught = 0 }
