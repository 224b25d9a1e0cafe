-- ===== src/MapGenerator/Maze.antt =====
-- `generate_maze_edges`, `extra_open_walls` and `clear_safe_zone`: which walls stand between the
-- rooms.
pub mod Rooms
mod Neighbors
pub mod Visit
pub mod Connected
use maze_client.Prelude.{
  ℕ, zero, suc, ◌+◌, ◌*◌, ◌-◌, ◌≤◌, ltb, leb, Bool, true, false, ◌&&◌, not, if◌then◌else◌, Option,
  none, some, List, [], ◌∷◌, ◌++◌, length, min, max,
}
use maze_client.Prelude.Int.{ℤ, pos, negsuc, ◌+ℤ◌}
use maze_client.Prelude.Loop.{for_range}
use mathlib.Core.List.{foldl}
use maze_client.MapGenerator.Grid.{Grid, Pos, cell, set_cell, filled}
use maze_client.MapGenerator.Walls.{WallEdgeSet, Edge, discard, remove_wall}
use maze_client.MapGenerator.Walls
use maze_client.MapGenerator.Random.{Rng, choice, sample}

-- Right, up, left, down.
abbrev pub directions : List (ℤ × ℤ)
directions = (pos 1, pos 0) ∷ (pos 0, pos 1) ∷ (negsuc 0, pos 0) ∷ (pos 0, negsuc 0) ∷ []

-- The guard of the loop over the directions, at `(nx, ny)`: the room, if it is in the grid and
-- not visited.
unfoldable pub unvisited_at : ℕ → Grid → ℤ → ℤ → Option Pos
unfolding cell
unvisited_at grid_dim visited (pos nx) (pos ny) =
    if ltb nx grid_dim && ltb ny grid_dim && not (cell visited nx ny) then some (nx, ny) else none
unvisited_at grid_dim visited _ _ = none

abbrev append_some : List Pos → Option Pos → List Pos
append_some ps none = ps
append_some ps (some p) = ps ++ p ∷ []

-- The list that the loop over the directions collects.
unfoldable pub unvisited_neighbors : ℕ → Grid → Pos → List Pos
unfolding unvisited_at
unvisited_neighbors grid_dim visited (cx, cy) =
    foldl
      (λ ps (dx, dy). append_some ps (unvisited_at grid_dim visited (pos cx +ℤ dx) (pos cy +ℤ dy)))
      [] directions

-- `for edge in to_remove: edge_set.walls.discard(edge)`
unfoldable pub discard_all : List Edge → List Edge → List Edge
unfolding discard
discard_all es [] = es
discard_all es (e ∷ to_remove) = discard_all (discard e es) to_remove

module _ (r : Rng) where
  -- `stack[-1]` is the head of `stack`.
  pub record Dfs : Type 0 where
    pub visited : Grid
    pub stack : List Pos
    pub edge_set : WallEdgeSet
    pub rng : r.State

  -- The rest of the loop body, where the room (cx, cy) on top has the neighbours `p ∷ ps`.
  unfoldable pub open_wall : Dfs → Pos → Pos → List Pos → Dfs
  unfolding choice remove_wall set_cell
  open_wall s (cx, cy) p ps =
      let ((nx, ny), rng') = choice r p ps s.rng in
      record {
        visited = set_cell s.visited nx ny true;
        stack = (nx, ny) ∷ s.stack;
        edge_set = remove_wall s.edge_set cx cy nx ny;
        rng = rng';
      }

  -- The body of `while stack`, at the top `c` of the stack and the rest below it.
  unfoldable pub dfs_step : ℕ → Dfs → Pos → List Pos → Dfs
  unfolding open_wall unvisited_neighbors
  dfs_step grid_dim s c rest = elim (unvisited_neighbors grid_dim s.visited c) [
    | [] ↦ record s { stack = rest }
    | p ∷ ps ↦ open_wall s c p ps
  ]

  -- `none` means that the fuel ran out.
  unfoldable pub dfs_loop : ℕ → ℕ → Dfs → List Pos → Option (WallEdgeSet × r.State)
  unfolding dfs_step
  dfs_loop fuel grid_dim s [] = some (s.edge_set, s.rng)
  dfs_loop zero grid_dim s (c ∷ rest) = none
  dfs_loop (suc fuel) grid_dim s (c ∷ rest) =
      let s' = dfs_step grid_dim s c rest in dfs_loop fuel grid_dim s' s'.stack

  -- What stands before `while stack`.
  unfoldable pub dfs_start : ℕ → r.State → Dfs
  unfolding Walls.new filled set_cell
  dfs_start grid_dim rng = record {
    visited = set_cell (filled grid_dim grid_dim false) 0 0 true;
    stack = (0, 0) ∷ [];
    edge_set = Walls.new grid_dim;
    rng = rng;
  }

  -- Each room is pushed once and popped once.
  unfoldable pub generate_maze_edges : ℕ → r.State → Option (WallEdgeSet × r.State)
  unfolding dfs_loop dfs_start
  generate_maze_edges grid_dim rng =
      let start = dfs_start grid_dim rng in
      dfs_loop (2 * (grid_dim * grid_dim)) grid_dim start start.stack

  -- The removal of `count` walls, if `count > 0` and there is a wall.
  open_some : WallEdgeSet → r.State → ℤ → List Edge → WallEdgeSet × r.State
  unfolding discard_all sample
  open_some edge_set rng (pos (suc count)) (e ∷ es) =
      let (to_remove, rng') = sample r e es (min (suc count) (length (e ∷ es))) rng in
      (record edge_set { walls = discard_all edge_set.walls to_remove }, rng')
  open_some edge_set rng _ _ = (edge_set, rng)

  -- The edge set is changed in place; the model returns it.
  unfoldable pub extra_open_walls : WallEdgeSet → r.Real → r.State → WallEdgeSet × r.State
  unfolding open_some
  extra_open_walls edge_set ratio rng =
      open_some edge_set rng (r.scaled (length edge_set.walls) ratio) edge_set.walls

-- The two guarded calls in the loop of `clear_safe_zone`, at the room (x, y).
unfoldable pub clear_walls_of : ℕ → ℕ → ℕ → ℕ → ℕ → ℕ → WallEdgeSet → WallEdgeSet
unfolding remove_wall
clear_walls_of grid_dim cx cy radius y x edge_set =
    let right =
      if ltb (x + 1) grid_dim && leb (x + 1) (cx + radius)
      then remove_wall edge_set x y (x + 1) y
      else edge_set in
    if ltb (y + 1) grid_dim && leb (y + 1) (cy + radius)
    then remove_wall right x y x (y + 1)
    else right

-- `max(0, cy - radius)` is the truncated `cy - radius`.
unfoldable pub clear_safe_zone : WallEdgeSet → ℕ → ℕ → ℕ → ℕ → WallEdgeSet
unfolding clear_walls_of for_range
clear_safe_zone edge_set grid_dim cx cy radius =
    for_range (cy - radius) (min grid_dim (cy + radius + 1))
      (λ y.
        for_range (cx - radius) (min grid_dim (cx + radius + 1))
          (clear_walls_of grid_dim cx cy radius y))
      edge_set
