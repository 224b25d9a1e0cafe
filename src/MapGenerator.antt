-- ===== src/MapGenerator.antt =====
-- tools/map_generator/generate_maze.py
pub mod Grid
pub mod Walls
pub mod Carve
pub mod Shortest
pub mod Random
pub mod Maze
pub mod Ends
pub mod Obstacles
pub mod Bitmap
pub mod Reachable
pub mod Segments
pub mod Map
pub mod Config
pub mod Command
mod Tests
