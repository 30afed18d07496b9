-- ===== src/Server.antt =====
-- cmd/server: the program that wires the packages together.
pub mod State
pub mod Tracking
pub mod Follow
pub mod RunRecord
pub mod Dispatch
pub mod Loops
pub mod Startup
pub mod Cli
pub mod Commands
pub mod Shutdown
pub mod Service
pub mod Dispatched
pub mod Overlap
pub mod Loading
pub mod Frames
pub mod Hub
pub mod Api
pub mod Reload
pub mod Chain
pub mod Configuration
pub mod Listeners
mod Tests
pub mod Wiring
