-- ===== src/MapGenerator/Map.antt =====
-- `generate_map` and `generate_reachable_map`.
mod Route
mod Final
pub mod Passable
pub mod Solvable
pub mod RandomEnds
pub mod Returns
pub mod Retry
use Prim.Native.String.{String}
use maze_client.Prelude.{
  ◌>>=◌, ℕ, zero, suc, ◌+◌, ◌*◌, ◌-◌, ◌/◌, ◌%◌, ◌^◌, ◌≤◌, ◌==◌, ltb, leb, Bool, true, false, ◌&&◌,
  not, if◌then◌else◌, Option, none, some, List, length, min,
}
use maze_client.Prelude.Int.{ℤ, pos, negsuc, ◌+ℤ◌}
use maze_client.MapGenerator.Grid.{Grid, Pos}
use maze_client.MapGenerator.Walls.{WallEdgeSet}
use maze_client.MapGenerator.Carve.{edges_to_blocked_grid}
use maze_client.MapGenerator.Shortest.{minus_one, shortest_action_steps}
use maze_client.MapGenerator.Random.{Rng}
use maze_client.MapGenerator.Ends.{
  Mode, fixed, random, diagonal, Ends, Options, map_size_of, choose_ends,
}
use maze_client.MapGenerator.Maze.{generate_maze_edges, extra_open_walls, clear_safe_zone}
use maze_client.MapGenerator.Obstacles.{clear_blocked_safe_zone, add_room_obstacles}
use maze_client.MapGenerator.Bitmap.{blocked_bitmap_bytes}
use maze_client.MapGenerator.Segments.{Segment, blocked_to_wall_segments}

abbrev pub max_retry : ℕ
max_retry = 100

-- `path_length > 0`
abbrev pub is_positive : ℤ → Bool
is_positive (pos (suc n)) = true
is_positive (pos zero) = false
is_positive (negsuc n) = false

module _ (r : Rng) where
  -- The dictionary of a map. `bounds` is `map_size` on both axes; `map_id` is `maze_<seed>`.
  pub record MapData : Type 0 where
    pub seed : ℤ
    pub difficulty : ℕ
    pub grid_cols : ℕ
    pub grid_rows : ℕ
    pub grid_size : r.Real
    pub room_size : ℕ
    pub room_dim : ℕ
    pub map_size : ℤ
    pub start_pos : r.Real × r.Real
    pub end_pos : r.Real × r.Real
    pub start_grid : Pos
    pub goal_grid : Pos
    pub blocked_bitmap : List ℕ
    pub wall_count : ℕ
    pub walls : List (Segment r.Real)

  -- The tuple of four, without a map, or the tuple of seven.
  pub data Generated : Type 0 where
    no_ends : WallEdgeSet → Generated
    generated : MapData → WallEdgeSet → Bool → ℤ → Grid → ℕ → Generated

  -- `rx * stride + 1 + room_size // 2`
  abbrev pub centre_of : Options r → ℕ → ℕ
  centre_of o rx = rx * (o.room_size + 1) + 1 + o.room_size / 2

  -- Steps 5 to 7: the blocked grid, with obstacles and with the cells around both ends cleared.
  unfoldable pub blocked_grid : Options r → ℕ → Ends → WallEdgeSet → r.State → Grid
  blocked_grid o room_dim e edge_set rng =
      let out_dim = room_dim * (o.room_size + 1) + 1 in
      let (blocked, _) = edges_to_blocked_grid o.room_size edge_set room_dim in
      let (placed, _) =
        (if r.gt_zero o.room_obstacle_density && leb 2 o.room_size
          then add_room_obstacles r room_dim o.room_size o.room_obstacle_density e.start_rx
              e.start_ry e.end_rx e.end_ry 1 (blocked, rng)
          else (blocked, rng)) in
      let cleared =
        clear_blocked_safe_zone placed out_dim (centre_of o e.start_rx) (centre_of o e.start_ry)
          1 in
      clear_blocked_safe_zone cleared out_dim (centre_of o e.end_rx) (centre_of o e.end_ry) 1

  -- Steps 8 to 11, on the final grid.
  unfoldable pub map_of : ℤ → Options r → ℕ → Ends → WallEdgeSet → Grid → Option Generated
  map_of seed o room_dim e edge_set blocked = do
    let out_dim = room_dim * (o.room_size + 1) + 1
    let map_size = map_size_of r o
    let start : Pos = (centre_of o e.start_rx, centre_of o e.start_ry)
    let goal : Pos = (centre_of o e.end_rx, centre_of o e.end_ry)
    path_length ← shortest_action_steps blocked out_dim out_dim start.0 start.1 goal.0 goal.1
    bitmap ← blocked_bitmap_bytes blocked out_dim out_dim
    let segments =
        blocked_to_wall_segments blocked out_dim (r.centre map_size out_dim) o.wall_thickness
    let map_data : MapData = record {
      seed = seed;
      difficulty = 0;
      grid_cols = out_dim;
      grid_rows = out_dim;
      grid_size = r.cell_size map_size out_dim;
      room_size = o.room_size;
      room_dim = room_dim;
      map_size = map_size;
      start_pos = (r.centre map_size out_dim start.0, r.centre map_size out_dim start.1);
      end_pos = (r.centre map_size out_dim goal.0, r.centre map_size out_dim goal.1);
      start_grid = start;
      goal_grid = goal;
      blocked_bitmap = bitmap;
      wall_count = length segments;
      walls = segments;
    }
    some (generated map_data edge_set (is_positive path_length) path_length blocked out_dim)

  -- Steps 4 to 11, once the end rooms are chosen.
  unfoldable pub finish_map :
      ℤ → Options r → ℕ → WallEdgeSet → Option Ends × r.State → Option Generated
  finish_map seed o room_dim edge_set (none, rng) = some (no_ends edge_set)
  finish_map seed o room_dim edge_set (some e, rng) =
      let near_start = clear_safe_zone edge_set room_dim e.start_rx e.start_ry 1 in
      let cleared = clear_safe_zone near_start room_dim e.end_rx e.end_ry 1 in
      map_of seed o room_dim e cleared (blocked_grid o room_dim e cleared rng)

  -- `grid_dim // stride`, or 2 where that is less, as it is for a negative `grid_dim`.
  abbrev pub rooms_from : ℤ → ℕ → ℕ
  rooms_from (pos grid_dim) stride =
      let room_dim = grid_dim / stride in if ltb room_dim 2 then 2 else room_dim
  rooms_from (negsuc k) stride = 2

  abbrev pub rooms_of : Options r → ℕ
  rooms_of o = rooms_from o.grid_dim (o.room_size + 1)

  -- `none` is a fault: a loop out of fuel, the ZeroDivisionError of the fixed ends, or the ValueError
  -- of the bitmap.
  unfoldable pub generate_map : ℤ → Options r → Option Generated
  generate_map seed o = do
    let room_dim = rooms_of o
    let out_dim = room_dim * (o.room_size + 1) + 1
    (edge_set, rng) ← generate_maze_edges r room_dim (r.seeded seed)
    let (opened, rng') = extra_open_walls r edge_set o.extra_open_ratio rng
    ends ← choose_ends r o o.start_end_mode room_dim out_dim rng'
    finish_map seed o room_dim opened ends

  -- What `generate_reachable_map` returns.
  pub record Outcome : Type 0 where
    pub map_data : Option MapData
    pub edge_set : Option WallEdgeSet
    pub path_length : ℤ
    pub final_seed : ℤ
    pub retry_count : ℕ
    pub blocked_grid : Option Grid
    pub out_dim : ℕ

  -- The result of one attempt; `none` goes on to the next.
  unfoldable pub accept : ℤ → ℕ → Generated → Option Outcome
  accept current_seed attempt (no_ends edge_set) = none
  accept current_seed attempt (generated map_data edge_set reachable path_length blocked out_dim) =
      if reachable
      then some (record {
        map_data = some map_data;
        edge_set = some edge_set;
        path_length = path_length;
        final_seed = current_seed;
        retry_count = attempt;
        blocked_grid = some blocked;
        out_dim = out_dim;
      })
      else none

  -- The attempts that are left, and the number of the next.
  unfoldable pub attempts : ℕ → ℕ → ℤ → Options r → Option Outcome
  attempts zero attempt seed o = some (record {
    map_data = none;
    edge_set = none;
    path_length = minus_one;
    final_seed = seed;
    retry_count = max_retry;
    blocked_grid = none;
    out_dim = 0;
  })
  attempts (suc left) attempt seed o = do
    let current_seed = seed +ℤ pos attempt
    result ← generate_map current_seed o
    let again = attempts left (attempt + 1) seed o
    elim (accept current_seed attempt result) [ some outcome ↦ some outcome | none ↦ again ]

  -- The clock in milliseconds gives the seed where none is given.
  unfoldable pub generate_reachable_map : Option ℤ → ℕ → Options r → Option Outcome
  generate_reachable_map none now o = attempts max_retry 0 (pos (now % 10 ^ 9)) o
  generate_reachable_map (some seed) now o = attempts max_retry 0 seed o
