-- ===== src/Listener/Lifecycle/LateSend.antt =====
-- internal/listener/manager.go and webhook.go: a handler that sends after the channel is closed.
use lp.Base.{ℕ, true, [], ◌∷◌, none, ◌≡◌, refl}
use lp.Listener.Manager.{Listener, webhook}
use lp.Listener.Webhook.{Webhook}
use lp.Listener.Lifecycle.{
  launched, serving, returned, leaving, ManagerSystem, start_manager, begin, request, return,
  stopped, done, launch, launched_all, work, accept_closed, cancel, stop_all, stop, close, Reach,
  begun, next, finished,
}

-- With a webhook, whatever the capacity of the channel, it can happen that Start of the manager has
-- stopped the listener, waited for its goroutine and closed the channel while a request is still being
-- handled, and that the handler then panics on the closed channel.
pub handler_sends_late :
    (buffer : ℕ) (w : Webhook)
    → (s : ManagerSystem) × Reach buffer (webhook w ∷ []) s
      × (s.main ≡ finished)
      × (s.handler_panicked ≡ true)
unfolding start_manager
handler_sends_late buffer w =
    let l : Listener = webhook w in
    let launching = next begun (launch l [] refl refl) in
    let started = next launching (work [] [] l launched refl (begin refl)) in
    let busy = next started (work [] [] l serving refl (request refl refl)) in
    let waits = next busy (launched_all refl refl) in
    let off = next waits (cancel refl) in
    let served = next off (work [] [] l serving refl (return refl refl)) in
    let told = next served (work [] [] l (returned none) refl (stopped refl)) in
    let left = next told (work [] [] l leaving refl (done refl)) in
    let stops = next left (stop_all refl refl refl) in
    let last = next stops (stop l [] refl refl) in
    let closed = next last (close refl refl refl) in
    (_, next closed (accept_closed 0 refl refl refl), refl, refl)
