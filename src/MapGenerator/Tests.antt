-- ===== src/MapGenerator/Tests.antt =====
-- Runs of the generator on small inputs, and the theorems at inputs that meet their hypotheses.
use maze_client.Prelude.{
  inl, inr, ◌%◌, ◌==◌, not, ◌/◌, ℕ, ◌+◌, ◌*◌, ◌<◌, ◌≡◌, ◌↔◌, ◌⊎◌, refl, true, false, none, some,
  List, [], ◌∷◌, length, get_elem?, arith,
}
use native.Mathlib.Nat.{mod-lt}
use maze_client.Prelude.Int.{pos, to_ℕ}
use maze_client.MapGenerator.Grid.{Grid, Pos, cell, Sized}
use maze_client.MapGenerator.Walls
use maze_client.MapGenerator.Walls.{WallEdgeSet, has_wall, remove_wall}
use maze_client.MapGenerator.Carve.{edges_to_blocked_grid}
use maze_client.MapGenerator.Carve.Spec.{IsOpen, edges_to_blocked_grid-IsOpen}
use maze_client.MapGenerator.Shortest.{shortest_action_steps, minus_one}
use maze_client.MapGenerator.Shortest.Correct.{IsShortest, shortest_action_steps-IsShortest}
use maze_client.MapGenerator.Random.{Rng, first_rng}
use maze_client.MapGenerator.Maze.{generate_maze_edges}
use maze_client.MapGenerator.Maze.Rooms.{Inside, Linked}
use maze_client.MapGenerator.Maze.Connected.{generate_maze_edges-Joined}
use maze_client.MapGenerator.Bitmap.{blocked_bitmap_bytes, byte_of}
use maze_client.MapGenerator.Bitmap.Laws.{blocked_bitmap_bytes-IsBitmap}
use maze_client.MapGenerator.Segments.{blocked_to_wall_segments}
use maze_client.MapGenerator.Ends.{Options, map_size_of, fixed, random, diagonal, random_ends}
use maze_client.MapGenerator.Map.{Generated, MapData, Outcome, generate_map, generate_reachable_map}
use maze_client.MapGenerator.Map.RandomEnds.{SolvedIfEnds, generate_map-SolvedIfEnds}
use maze_client.MapGenerator.Map.Solvable.{Solved, generate_map-Solved}
use maze_client.MapGenerator.Map.Returns.{HasEnds, generate_map-Returns}
use maze_client.MapGenerator.Map.Retry.{
  FirstAccepted, Refused, failure, generate_reachable_map-first, generate_reachable_map-no_retry,
}

-- Two rooms by two, with the wall between (0, 0) and (1, 0) open.
abbrev two_rooms : WallEdgeSet
two_rooms = record {
  grid_dim = 2;
  walls = ((0, 0), (0, 1)) ∷ ((1, 0), (1, 1)) ∷ ((0, 1), (1, 1)) ∷ [];
}

-- . # .
-- . # #
-- . . .
abbrev corner : Grid
corner =
    (false ∷ false ∷ false ∷ []) ∷ (false ∷ true ∷ true ∷ []) ∷ (false ∷ true ∷ false ∷ []) ∷ []

new_walls : Walls.wall_count (Walls.new 3) ≡ 12
unfolding Walls.wall_count Walls.new
new_walls = refl

opened_either_way : has_wall (remove_wall two_rooms 0 1 0 0) 0 0 0 1 ≡ false
unfolding has_wall remove_wall
opened_either_way = refl

dug : edges_to_blocked_grid 1 two_rooms 2 ≡ (
  (true ∷ true ∷ true ∷ true ∷ true ∷ [])
      ∷ (true ∷ false ∷ false ∷ false ∷ true ∷ [])
      ∷ (true ∷ true ∷ true ∷ true ∷ true ∷ [])
      ∷ (true ∷ false ∷ true ∷ false ∷ true ∷ [])
      ∷ (true ∷ true ∷ true ∷ true ∷ true ∷ [])
      ∷ [],
  5,
)
unfolding edges_to_blocked_grid
dug = refl

-- The corner at (1, 1) is blocked, so no diagonal is cut there.
around_corner : shortest_action_steps corner 3 3 0 2 2 0 ≡ some (pos 4)
unfolding shortest_action_steps
around_corner = refl

cut_off : shortest_action_steps corner 3 3 0 0 2 2 ≡ some minus_one
unfolding shortest_action_steps
cut_off = refl

corner_bytes : blocked_bitmap_bytes corner 3 3 ≡ some (0 ∷ 0 ∷ 0 ∷ 0 ∷ 1 ∷ 1 ∷ 0 ∷ 1 ∷ 0 ∷ [])
unfolding blocked_bitmap_bytes
corner_bytes = refl

ragged : blocked_bitmap_bytes corner 2 3 ≡ none
unfolding blocked_bitmap_bytes
ragged = refl

-- Two columns of blocked cells, and no segment along a row.
corner_segments :
    blocked_to_wall_segments corner 3 (λ g. g) 10
    ≡ record { x1 = 1; y1 = 1; x2 = 1; y2 = 2; thickness = 10 }
      ∷ record { x1 = 2; y1 = 1; x2 = 2; y2 = 1; thickness = 10 }
      ∷ []
unfolding blocked_to_wall_segments
corner_segments = refl

abbrev small : Options first_rng
small = record {
  grid_dim = pos 4;
  grid_size = pos 500;
  wall_thickness = 10;
  extra_open_ratio = 0;
  start_end_mode = diagonal;
  fixed_start = (0, 0);
  fixed_end = (0, 0);
  min_distance = pos 1;
  room_size = 1;
  room_obstacle_density = 0;
}

edges_to_blocked_grid-IsOpen_example :
    ((edges_to_blocked_grid 1 two_rooms 2).1 ≡ 2 * (1 + 1) + 1)
    × Sized (2 * (1 + 1) + 1) (2 * (1 + 1) + 1) (edges_to_blocked_grid 1 two_rooms 2).0
    × ((x y : ℕ)
        → x < 2 * (1 + 1) + 1
        → y < 2 * (1 + 1) + 1
        → (cell (edges_to_blocked_grid 1 two_rooms 2).0 x y ≡ false) ↔ IsOpen two_rooms 2 1 x y)
edges_to_blocked_grid-IsOpen_example = edges_to_blocked_grid-IsOpen two_rooms 2 1

shortest_action_steps-IsShortest_example :
    IsShortest corner 3 3 (0, 2) (2, 0) (shortest_action_steps corner 3 3 0 2 2 0)
shortest_action_steps-IsShortest_example =
    shortest_action_steps-IsShortest corner 3 3 (0, 2) (2, 0)
      (record { rows = refl; wide = (refl, (refl, (refl, tt))) })

generate_maze_edges-Joined_example :
    (s : WallEdgeSet) × (rng' : ℕ) × (generate_maze_edges first_rng 3 5 ≡ some (s, rng'))
    × ((p : Pos) → Inside 3 p → Linked 3 s p)
generate_maze_edges-Joined_example = generate_maze_edges-Joined first_rng 3 5 (omega arith)

blocked_bitmap_bytes-IsBitmap_example :
    (Sized 3 3 corner
      → (bytes : List ℕ) × (blocked_bitmap_bytes corner 3 3 ≡ some bytes)
        × (length bytes ≡ 3 * 3)
        × ((x y : ℕ)
            → x < 3
            → y < 3
            → get_elem? bytes (y * 3 + x) ≡ some (byte_of (cell corner x y))))
    × (¬ Sized 3 3 corner → blocked_bitmap_bytes corner 3 3 ≡ none)
blocked_bitmap_bytes-IsBitmap_example = blocked_bitmap_bytes-IsBitmap corner 3 3

-- A generator that always picks the first item and places every obstacle.
abbrev walling_rng : Rng
walling_rng = record {
  State = ℕ;
  Real = ℕ;
  seeded = λ seed. 0;
  below = λ n s. (0, s + 1);
  below_lt = λ n s h. h;
  chance = λ d s. (true, s + 1);
  sample_indices = λ n k s. ([], s);
  le_zero = λ d. d == 0;
  gt_zero = λ d. not (d == 0);
  scaled = λ n d. pos 0;
  grid_cell = λ map_size out_dim x. pos 0;
  centre = λ map_size out_dim g. g;
  cell_size = λ map_size out_dim. to_ℕ map_size / out_dim;
}

abbrev crowded : Options walling_rng
crowded = record {
  grid_dim = pos 12;
  grid_size = pos 500;
  wall_thickness = 10;
  extra_open_ratio = 0;
  start_end_mode = diagonal;
  fixed_start = (0, 0);
  fixed_end = (0, 0);
  min_distance = pos 1;
  room_size = 3;
  room_obstacle_density = 1;
}

generate_map-Solved_example : Solved walling_rng crowded (generate_map walling_rng (pos 7) crowded)
generate_map-Solved_example =
    generate_map-Solved walling_rng crowded (pos 7) (inr (omega arith)) (omega arith) refl

-- Both ends are fixed.
abbrev pinned : Options first_rng
pinned = record small { start_end_mode = fixed }

has_size : pos 2000 ≡ pos 0 → ⊥
has_size e = cc e

abbrev pinned_ends : HasEnds first_rng pinned
pinned_ends = inr has_size

generate_map-Returns_example :
    (HasEnds first_rng pinned
      → (g : Generated first_rng) × (generate_map first_rng (pos 7) pinned ≡ some g))
    × (pinned.start_end_mode ≡ fixed
        → map_size_of first_rng pinned ≡ pos 0
        → generate_map first_rng (pos 7) pinned ≡ none)
generate_map-Returns_example = generate_map-Returns first_rng pinned (pos 7)

generate_reachable_map-first_example :
    (out : Outcome first_rng) × (generate_reachable_map first_rng (some (pos 7)) 0 pinned
      ≡ some out)
    × (((k : ℕ) × (k < 100) × FirstAccepted first_rng pinned (pos 7) 0 k out)
        ⊎ (out ≡ failure first_rng pinned (pos 7))
          × ((j : ℕ) → j < 100 → Refused first_rng pinned (pos 7) j))
generate_reachable_map-first_example =
    generate_reachable_map-first first_rng pinned (pos 7) 0 pinned_ends

generate_reachable_map-no_retry_example :
    (out : Outcome first_rng) × (d : MapData first_rng) × (len : ℕ) × (generate_reachable_map
        first_rng none 1234 small
      ≡ some out)
    × (out.map_data ≡ some d)
    × (out.path_length ≡ pos len)
    × (0 < len)
    × (out.retry_count ≡ 0)
generate_reachable_map-no_retry_example =
    generate_reachable_map-no_retry first_rng small none 1234 (inl refl) (omega arith) refl

-- A generator that counts, so that the rooms of a map differ.
abbrev counting_rng : Rng
counting_rng = record {
  State = ℕ;
  Real = ℕ;
  seeded = λ seed. 0;
  below = λ n s. (s % n, s + 1);
  below_lt = λ n s h. mod-lt s h;
  chance = λ d s. (s % 2 == 0, s + 1);
  sample_indices = λ n k s. ([], s);
  le_zero = λ d. d == 0;
  gt_zero = λ d. not (d == 0);
  scaled = λ n d. pos 0;
  grid_cell = λ map_size out_dim x. pos 0;
  centre = λ map_size out_dim g. g;
  cell_size = λ map_size out_dim. to_ℕ map_size / out_dim;
}

abbrev scattered : Options counting_rng
scattered = record {
  grid_dim = pos 12;
  grid_size = pos 500;
  wall_thickness = 10;
  extra_open_ratio = 0;
  start_end_mode = random;
  fixed_start = (0, 0);
  fixed_end = (0, 0);
  min_distance = pos 1;
  room_size = 3;
  room_obstacle_density = 1;
}

far_apart :
    (random_ends counting_rng 500 3 (pos 1) 0).0
    ≡ some (record { start_rx = 0; start_ry = 1; end_rx = 2; end_ry = 0 })
unfolding random_ends
far_apart = refl

generate_map-SolvedIfEnds_example :
    SolvedIfEnds counting_rng scattered (generate_map counting_rng (pos 7) scattered)
generate_map-SolvedIfEnds_example =
    generate_map-SolvedIfEnds counting_rng scattered (pos 7) 0 (inr (omega arith)) (omega arith)
      refl refl
