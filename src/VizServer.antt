-- ===== src/VizServer.antt =====
-- tools/viz_player/maze_viz_server.py
pub mod LineIndex
pub mod Disk
pub mod Ready
pub mod Closed
pub mod Pages
pub mod Queries
pub mod Http
mod Tests
mod ReadyTests
