-- ===== src/MapGenerator/Reachable.antt =====
-- `bfs_reachable`: breadth-first search over the rooms, through the gaps in the walls.
pub mod Queue
mod Round
pub mod Correct
pub mod Maze
mod Tests
use maze_client.Prelude.{
  ℕ, zero, suc, ◌+◌, ◌*◌, ltb, ◌==◌, Bool, true, false, ◌&&◌, not, if◌then◌else◌, Option, none,
  some, List, [], ◌∷◌, ◌++◌,
}
use maze_client.Prelude.Int.{ℤ, pos, negsuc, ◌+ℤ◌}
use mathlib.Core.List.{foldl}
use maze_client.MapGenerator.Grid.{Grid, Pos, set_cell, filled}
use maze_client.MapGenerator.Walls.{WallEdgeSet, has_wall}
use maze_client.MapGenerator.Maze.{directions, unvisited_at}

-- A room in the queue, with its distance.
abbrev pub Waiting : Type 0
Waiting = Pos × ℕ

pub record Rooms : Type 0 where
  pub visited : Grid
  pub queue : List Waiting

module _ (edge_set : WallEdgeSet) (grid_dim : ℕ) where
  -- The inner test, and its body, at the room (nx, ny) beside (cx, cy).
  unfoldable pub enter : Pos → ℕ → Rooms → Pos → Rooms
  unfolding has_wall set_cell
  enter (cx, cy) dist s (nx, ny) =
      if not (has_wall edge_set cx cy nx ny)
      then record {
        visited = set_cell s.visited nx ny true;
        queue = s.queue ++ ((nx, ny), dist + 1) ∷ [];
      }
      else s

  -- The body of the loop over the directions.
  unfoldable pub try_direction : Pos → ℕ → Rooms → ℤ × ℤ → Rooms
  unfolding unvisited_at enter
  try_direction (cx, cy) dist s (dx, dy) =
      elim (unvisited_at grid_dim s.visited (pos cx +ℤ dx) (pos cy +ℤ dy)) [
        | none ↦ s
        | some p ↦ enter (cx, cy) dist s p
      ]

  -- `while queue`, with fuel; `none` means that the fuel ran out.
  unfoldable pub rooms_loop : ℕ → Pos → Grid → List Waiting → Option (Bool × ℤ)
  unfolding try_direction
  rooms_loop fuel (ex, ey) visited [] = some (false, negsuc 0)
  rooms_loop zero (ex, ey) visited (w ∷ queue) = none
  rooms_loop (suc fuel) (ex, ey) visited (((cx, cy), dist) ∷ queue) =
      let next =
        foldl (try_direction (cx, cy) dist) (record { visited = visited; queue = queue })
          directions in
      let rest = rooms_loop fuel (ex, ey) next.visited next.queue in
      if cx == ex && cy == ey then some (true, pos dist) else rest

  -- Each room enters the queue once, so one round for each room is enough. Where the start is off
  -- the grid, `visited[sy][sx]` raises an IndexError: `none`.
  unfoldable pub bfs_reachable : ℕ → ℕ → ℕ → ℕ → Option (Bool × ℤ)
  unfolding rooms_loop filled set_cell
  bfs_reachable sx sy ex ey =
      let visited = set_cell (filled grid_dim grid_dim false) sx sy true in
      if ltb sx grid_dim && ltb sy grid_dim
      then rooms_loop (grid_dim * grid_dim) (ex, ey) visited (((sx, sy), 0) ∷ [])
      else none
