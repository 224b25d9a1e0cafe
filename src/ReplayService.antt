-- ===== src/ReplayService.antt =====
-- The parts of scripts/replay_service.py.
pub mod Config
pub mod Settings
pub mod Command
pub mod ProcessTable
pub mod Owner
pub mod Stop
pub mod Signals
pub mod Restart
pub mod Handshake
pub mod Lifecycle
mod Tests
