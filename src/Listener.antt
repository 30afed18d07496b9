-- ===== src/Listener.antt =====
-- internal/listener: sources of events, each of which names the pipeline to run.
pub mod Event
pub mod Hooks
pub mod FileWatcher
pub mod Webhook
pub mod Manager
pub mod Lifecycle
