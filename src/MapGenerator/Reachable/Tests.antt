-- ===== src/MapGenerator/Reachable/Tests.antt =====
-- The search over the rooms on small mazes, and the theorems at inputs that meet their hypotheses.
use maze_client.Prelude.{ℕ, ◌≡◌, refl, true, false, none, some, [], ◌∷◌, arith}
use maze_client.Prelude.Int.{pos, negsuc}
use maze_client.MapGenerator.Grid.{Pos}
use maze_client.MapGenerator.Walls.{WallEdgeSet}
use maze_client.MapGenerator.Random.{first_rng}
use maze_client.MapGenerator.Maze.{generate_maze_edges}
use maze_client.MapGenerator.Maze.Rooms.{Inside}
use maze_client.MapGenerator.Reachable.{bfs_reachable}
use maze_client.MapGenerator.Reachable.Correct.{IsReached, bfs_reachable-IsReached}
use maze_client.MapGenerator.Reachable.Maze.{generate_maze_edges-reached}

-- A wall above the room (0, 0).
abbrev one_wall : WallEdgeSet
one_wall = record { grid_dim = 2; walls = ((0, 0), (0, 1)) ∷ [] }

-- And a wall beside it.
abbrev shut_in : WallEdgeSet
shut_in = record { grid_dim = 2; walls = ((0, 0), (0, 1)) ∷ ((0, 0), (1, 0)) ∷ [] }

around : bfs_reachable one_wall 2 0 0 0 1 ≡ some (true, pos 3)
unfolding bfs_reachable
around = refl

at_start : bfs_reachable shut_in 2 0 0 0 0 ≡ some (true, pos 0)
unfolding bfs_reachable
at_start = refl

lost : bfs_reachable shut_in 2 0 0 1 1 ≡ some (false, negsuc 0)
unfolding bfs_reachable
lost = refl

off_grid : bfs_reachable one_wall 2 2 0 0 1 ≡ none
unfolding bfs_reachable
off_grid = refl

abbrev origin_in : Inside 2 (0, 0)
origin_in = (omega arith, omega arith)

bfs_reachable-IsReached_example :
    IsReached 2 one_wall (0, 0) (0, 1) origin_in (bfs_reachable one_wall 2 0 0 0 1)
bfs_reachable-IsReached_example = bfs_reachable-IsReached one_wall 2 (0, 0) (0, 1) origin_in

generate_maze_edges-reached_example :
    (s : WallEdgeSet) × (rng' : ℕ) × (generate_maze_edges first_rng 3 5 ≡ some (s, rng'))
    × ((start goal : Pos)
        → Inside 3 start
        → Inside 3 goal
        → (d : ℕ) × (bfs_reachable s 3 start.0 start.1 goal.0 goal.1 ≡ some (true, pos d)))
generate_maze_edges-reached_example = generate_maze_edges-reached first_rng 3 5 (omega arith)
