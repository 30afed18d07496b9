-- ===== src/Server/Wiring/Registered.antt =====
-- The hooks that newServer and main register satisfy IsWired, for any configured hooks.
use lp.Base.{
  String, List, [], ◌∷◌, ◌++◌, ◌≡◌, refl, All, All-append, ◌∙◌, Bool, true, false, lower_eq,
  is_empty, split, arith, if◌then◌else◌,
}
use mathlib.Core.List.{append_assoc}
use lp.Logging.{text}
use lp.Hooks as Registries
use lp.Observability.Tracker
use lp.Runners.Step.{Config}
use lp.Runners.Hooks.{Hooks, Callback, new_hooks}
use lp.Runners.Hooks as Events
use lp.Runners.Delivery.{IsNeutral}
use lp.Runners.Pool.{new_pool}
use lp.Server.State.{Server, Tracked, print, print_lines, print_output, note}
use lp.Server.State
use lp.Server.Wiring.{HookEntry, register_entry, register_configured_hooks, wired_pool}
use lp.Server.Wiring
use lp.Server.Wiring.Emits.{Around, IsWired, tracked_of}

abbrev AreNeutral : Hooks Server → Type 0
AreNeutral h =
    All (IsNeutral tracked_of) h.on_pipeline_started.listeners
    × All (IsNeutral tracked_of) h.on_pipeline_completed.listeners
    × All (IsNeutral tracked_of) h.on_pipeline_failed.listeners
    × All (IsNeutral tracked_of) h.on_step_started.listeners
    × All (IsNeutral tracked_of) h.on_step_completed.listeners
    × All (IsNeutral tracked_of) h.on_step_failed.listeners

either :
    (b : Bool) (h k : Hooks Server) → AreNeutral h → AreNeutral k → AreNeutral (if b then h else k)
either true h k p q = p
either false h k p q = q

-- A configured hook is added to one registry at most.
register_entry-AreNeutral :
    (e : HookEntry) (h : Hooks Server) → AreNeutral h → AreNeutral (register_entry e h)
unfolding register_entry Registries.on Events.on_pipeline_started Events.on_pipeline_completed
    Events.on_pipeline_failed Events.on_step_started Events.on_step_completed Events.on_step_failed
    Wiring.run_on_pipeline Wiring.run_on_completed Wiring.run_on_failed Wiring.run_on_step
    Wiring.run_on_step_completed Wiring.run_on_step_failed Wiring.start_command
register_entry-AreNeutral e h n =
    either (lower_eq e.event "pipeline_started") _ _
      (
        All-append (IsNeutral tracked_of) h.on_pipeline_started.listeners _ n.0
            (λ now a s. refl, tt),
        n.1,
        n.2,
        n.3,
        n.4,
        n.5,
      )
      (either (lower_eq e.event "pipeline_completed") _ _
        (
          n.0,
          All-append (IsNeutral tracked_of) h.on_pipeline_completed.listeners _ n.1
              (λ now a s. refl, tt),
          n.2,
          n.3,
          n.4,
          n.5,
        )
        (either (lower_eq e.event "pipeline_failed") _ _
          (
            n.0,
            n.1,
            All-append (IsNeutral tracked_of) h.on_pipeline_failed.listeners _ n.2
                (λ now a s. refl, tt),
            n.3,
            n.4,
            n.5,
          )
          (either (lower_eq e.event "step_started") _ _
            (
              n.0,
              n.1,
              n.2,
              All-append (IsNeutral tracked_of) h.on_step_started.listeners _ n.3
                  (λ now a s. refl, tt),
              n.4,
              n.5,
            )
            (either (lower_eq e.event "step_completed") _ _
              (
                n.0,
                n.1,
                n.2,
                n.3,
                All-append (IsNeutral tracked_of) h.on_step_completed.listeners _ n.4
                    (λ now a s. refl, tt),
                n.5,
              )
              (either (lower_eq e.event "step_failed") _ _
                (
                  n.0,
                  n.1,
                  n.2,
                  n.3,
                  n.4,
                  All-append (IsNeutral tracked_of) h.on_step_failed.listeners _ n.5
                      (λ now a s. refl, tt),
                )
                n)))))

register_configured_hooks-AreNeutral :
    (es : List HookEntry) (h : Hooks Server)
    → AreNeutral h
    → AreNeutral (register_configured_hooks es h)
unfolding register_configured_hooks
register_configured_hooks-AreNeutral [] h n = n
register_configured_hooks-AreNeutral (e ∷ es) h n =
    register_configured_hooks-AreNeutral es _ (register_entry-AreNeutral e h n)

-- A callback between the configured ones with one more in front, and one behind.
Around-three :
    {A : Type 0} (configured : List (Callback A Server)) (first fn last : Callback A Server)
    → All (IsNeutral tracked_of) configured
    → IsNeutral tracked_of first
    → IsNeutral tracked_of last
    → Around fn (((configured ++ first ∷ []) ++ fn ∷ []) ++ last ∷ [])
Around-three configured first fn last n nf nl = record {
  before = configured ++ first ∷ [];
  after = last ∷ [];
  split = append_assoc (configured ++ first ∷ []) (fn ∷ []) (last ∷ []);
  neutral_before = All-append (IsNeutral tracked_of) configured _ n (nf, tt);
  neutral_after = (nl, tt);
}

print_lines-tracked :
    (stream : String) (lines : List String) (s : Server)
    → (print_lines stream lines s).tracked ≡ s.tracked
unfolding print_lines print
print_lines-tracked stream [] s = refl
print_lines-tracked stream (line ∷ lines) s = print_lines-tracked stream lines _ ∙ ground arith

print_output-tracked :
    (stream out : String) (s : Server) → (print_output stream out s).tracked ≡ s.tracked
unfolding print_output
print_output-tracked stream out s = print_lines-tracked stream (split b'\n' out) s

either_tracked :
    (b : Bool) (h k : Server) (v : Tracked)
    → h.tracked ≡ v
    → k.tracked ≡ v
    → tracked_of (if b then h else k) ≡ v
either_tracked true h k v p q = p
either_tracked false h k v p q = q

cli_step_completed-IsNeutral : IsNeutral tracked_of State.cli_step_completed
unfolding State.cli_step_completed note print
cli_step_completed-IsNeutral now (p, step, result) s =
    either_tracked (is_empty result.stderr) _ _ _ printed
      (print_output-tracked "stderr" result.stderr _ ∙ printed)
  where
    printed :
        tracked_of (
          if is_empty result.stdout
          then print State.prefix_ok "step %s/%s completed" (text p ∷ text step ∷ []) s
          else print_output "stdout" result.stdout
              (print State.prefix_ok "step %s/%s completed" (text p ∷ text step ∷ []) s))
        ≡ s.tracked
    printed =
        either_tracked (is_empty result.stdout) _ _ _ refl
          (print_output-tracked "stdout" result.stdout _)

configured_hooks : List HookEntry → Hooks Server
unfolding new_hooks
configured_hooks entries = register_configured_hooks entries new_hooks

configured-AreNeutral : (entries : List HookEntry) → AreNeutral (configured_hooks entries)
unfolding configured_hooks
configured-AreNeutral entries =
    register_configured_hooks-AreNeutral entries new_hooks (tt, tt, tt, tt, tt, tt)

-- Whatever hooks are configured, run tracking is registered once for each event, and no other
-- callback and no panic handler touches the store or the active runs.
pub wired_pool-IsWired :
    (cfg : Config) (entries : List HookEntry) → IsWired (wired_pool cfg entries).hooks
unfolding wired_pool configured_hooks new_pool State.cli_pipeline_started
    State.cli_pipeline_completed State.cli_pipeline_failed State.cli_step_started
    State.cli_step_failed Wiring.ws_pipeline_started Wiring.ws_pipeline_completed
    Wiring.ws_pipeline_failed Wiring.ws_step_started Wiring.ws_step_completed Wiring.ws_step_failed
    Wiring.broadcast note print State.handle_panic Registries.on Events.on_pipeline_started
    Events.on_pipeline_completed Events.on_pipeline_failed Events.on_step_started
    Events.on_step_completed Events.on_step_failed Events.set_panic_handler
    Tracker.set_panic_handler Tracker.call_handler
wired_pool-IsWired cfg entries =
    let n = configured-AreNeutral entries in
    record {
      registered = (
        Around-three (configured_hooks entries).on_pipeline_started.listeners
            State.cli_pipeline_started _ Wiring.ws_pipeline_started n.0 (λ now a s. refl)
            (λ now a s. refl),
        Around-three (configured_hooks entries).on_pipeline_completed.listeners
            State.cli_pipeline_completed _ Wiring.ws_pipeline_completed n.1 (λ now a s. refl)
            (λ now a s. refl),
        Around-three (configured_hooks entries).on_pipeline_failed.listeners
            State.cli_pipeline_failed _ Wiring.ws_pipeline_failed n.2 (λ now a s. refl)
            (λ now a s. refl),
        Around-three (configured_hooks entries).on_step_started.listeners State.cli_step_started _
            Wiring.ws_step_started n.3 (λ now a s. refl) (λ now a s. refl),
        Around-three (configured_hooks entries).on_step_completed.listeners State.cli_step_completed
            _ Wiring.ws_step_completed n.4 cli_step_completed-IsNeutral (λ now a s. refl),
        Around-three (configured_hooks entries).on_step_failed.listeners State.cli_step_failed _
            Wiring.ws_step_failed n.5 (λ now a s. refl) (λ now a s. refl),
      );
      quiet = (
        (λ label now value w. refl),
        (λ label now value w. refl),
        (λ label now value w. refl),
        (λ label now value w. refl),
        (λ label now value w. refl),
        (λ label now value w. refl),
      );
    }
