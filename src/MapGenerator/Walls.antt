-- ===== src/MapGenerator/Walls.antt =====
-- `WallEdgeSet`: the wall between each pair of adjacent rooms that is not opened yet.
pub mod Laws
use maze_client.Prelude.{
  ℕ, ◌+◌, ◌==◌, ltb, Bool, true, false, ◌&&◌, ◌||◌, if◌then◌else◌, List, [], ◌∷◌, length, map,
}
use maze_client.Prelude.Loop.{for_range}
use maze_client.MapGenerator.Grid.{Pos}

-- A frozenset of two rooms, held in the order in which it was written.
abbrev pub Edge : Type 0
Edge = Pos × Pos

unfoldable pub same_pos : Pos → Pos → Bool
same_pos (x, y) (x', y') = x == x' && y == y'

-- Equality of frozensets: the order of the two rooms does not matter.
unfoldable pub same_edge : Edge → Edge → Bool
unfolding same_pos
same_edge (a, b) (c, d) = same_pos a c && same_pos b d || same_pos a d && same_pos b c

-- `walls` is a set: no member stands in it twice.
pub record WallEdgeSet : Type 0 where
  pub grid_dim : ℕ
  pub walls : List Edge

-- `edge in walls`
unfoldable pub member : Edge → List Edge → Bool
unfolding same_edge
member e [] = false
member e (f ∷ fs) = same_edge e f || member e fs

-- `walls.add(edge)`
unfoldable pub add : Edge → List Edge → List Edge
unfolding member
add e es = if member e es then es else e ∷ es

-- `walls.discard(edge)`
unfoldable pub discard : Edge → List Edge → List Edge
unfolding same_edge
discard e [] = []
discard e (f ∷ fs) = let rest = discard e fs in if same_edge e f then rest else f ∷ rest

-- The two guarded calls in the loop of `__init__`, at the room (x, y).
unfoldable pub add_walls_of : ℕ → ℕ → ℕ → List Edge → List Edge
unfolding add
add_walls_of grid_dim y x es =
    let right = if ltb (x + 1) grid_dim then add ((x, y), (x + 1, y)) es else es in
    if ltb (y + 1) grid_dim then add ((x, y), (x, y + 1)) right else right

unfoldable pub new : ℕ → WallEdgeSet
unfolding add_walls_of for_range
new grid_dim = record {
  grid_dim = grid_dim;
  walls = for_range 0 grid_dim (λ y. for_range 0 grid_dim (add_walls_of grid_dim y)) [];
}

unfoldable pub has_wall : WallEdgeSet → ℕ → ℕ → ℕ → ℕ → Bool
unfolding member
has_wall s x1 y1 x2 y2 = member ((x1, y1), (x2, y2)) s.walls

unfoldable pub remove_wall : WallEdgeSet → ℕ → ℕ → ℕ → ℕ → WallEdgeSet
unfolding discard
remove_wall s x1 y1 x2 y2 = record s { walls = discard ((x1, y1), (x2, y2)) s.walls }

unfoldable pub wall_count : WallEdgeSet → ℕ
wall_count s = length s.walls

-- Python compares tuples by the first component, then by the second.
unfoldable pub pos_before : Pos → Pos → Bool
pos_before (x, y) (x', y') = ltb x x' || x == x' && ltb y y'

-- `sorted(edge)`
unfoldable pub sorted_edge : Edge → Edge
unfolding pos_before
sorted_edge (a, b) = if pos_before b a then (b, a) else (a, b)

unfoldable pub get_all_walls : WallEdgeSet → List Edge
unfolding sorted_edge
get_all_walls s = map sorted_edge s.walls
