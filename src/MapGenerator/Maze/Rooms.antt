-- ===== src/MapGenerator/Maze/Rooms.antt =====
-- The rooms of the maze, and the rooms that open passages join to the room (0, 0).
use maze_client.Prelude.{
  ℕ, zero, suc, ◌+◌, ◌-◌, ◌<◌, ◌≡◌, ◌⊎◌, refl, Bool, true, false, ◌&&◌, List, [], ◌∷◌, length, min,
  ltb, leb, if◌then◌else◌,
}
use maze_client.Prelude.Int.{ℤ, pos, negsuc}
use maze_client.Prelude.Loop.{for_range_inv}
use maze_client.MapGenerator.Grid.{Pos}
use maze_client.MapGenerator.Walls.{WallEdgeSet, Edge, member, discard, has_wall, remove_wall}
use maze_client.MapGenerator.Walls.Laws.{member-discard, same_edge_refl}
use maze_client.MapGenerator.Random.{Rng, sample}
use maze_client.MapGenerator.Maze.{
  discard_all, open_some, extra_open_walls, clear_walls_of, clear_safe_zone,
}

abbrev Beside : ℕ → ℕ → Type 0
Beside a b = (a + 1 ≡ b) ⊎ (b + 1 ≡ a)

abbrev pub Adjacent : Pos → Pos → Type 0
Adjacent (x, y) (x', y') = Beside x x' × (y ≡ y') ⊎ (x ≡ x') × Beside y y'

abbrev pub Inside : ℕ → Pos → Type 0
Inside n (x, y) = (x < n) × (y < n)

-- The rooms that a chain of rooms with no wall between them joins to (0, 0).
pub data Linked (n : ℕ) (s : WallEdgeSet) : Pos → Type 0 where
  origin : Linked n s (0, 0)
  step :
      {p q : Pos}
      → Linked n s p
      → Adjacent p q
      → Inside n p
      → Inside n q
      → has_wall s p.0 p.1 q.0 q.1 ≡ false
      → Linked n s q

-- `t` has no wall that `s` has not.
abbrev pub Opens : WallEdgeSet → WallEdgeSet → Type 0
Opens s t = (a b c d : ℕ) → has_wall s a b c d ≡ false → has_wall t a b c d ≡ false

pub Linked-Opens : {n : ℕ} {s t : WallEdgeSet} {p : Pos} → Opens s t → Linked n s p → Linked n t p
Linked-Opens o origin = origin
Linked-Opens o (step {p} {q} l adj ip iq gone) =
    step (Linked-Opens o l) adj ip iq (o p.0 p.1 q.0 q.1 gone)

member-discard-false :
    (e f : Edge) (es : List Edge) → member f es ≡ false → member f (discard e es) ≡ false
member-discard-false e f es h = rw (member-discard, h)

pub Opens-remove_wall : (s : WallEdgeSet) (a b c d : ℕ) → Opens s (remove_wall s a b c d)
unfolding has_wall remove_wall
Opens-remove_wall s a b c d a' b' c' d' h =
    member-discard-false ((a, b), (c, d)) ((a', b'), (c', d')) s.walls h

and-false : (b : Bool) → (b && false) ≡ false
and-false true = refl
and-false false = refl

pub has_wall-remove_wall :
    (s : WallEdgeSet) (a b c d : ℕ) → has_wall (remove_wall s a b c d) a b c d ≡ false
unfolding has_wall remove_wall
has_wall-remove_wall s a b c d = rw (member-discard, same_edge_refl ((a, b), (c, d))) (and-false _)

discard_all-false :
    (f : Edge) (es to_remove : List Edge)
    → member f es ≡ false
    → member f (discard_all es to_remove) ≡ false
unfolding discard_all
discard_all-false f es [] h = h
discard_all-false f es (e ∷ to_remove) h =
    discard_all-false f (discard e es) to_remove (member-discard-false e f es h)

open_some-Opens :
    (r : Rng) (s : WallEdgeSet) (rng : r.State) (count : ℤ) (es : List Edge)
    → Opens s (open_some r s rng count es).0
unfolding open_some has_wall
open_some-Opens r s rng (pos (suc count)) (e ∷ es) a b c d h =
    discard_all-false ((a, b), (c, d)) s.walls
      (sample r e es (min (suc count) (length (e ∷ es))) rng).0 h
open_some-Opens r s rng (pos zero) es a b c d h = h
open_some-Opens r s rng (pos (suc count)) [] a b c d h = h
open_some-Opens r s rng (negsuc count) es a b c d h = h

-- The extra openings build no wall.
pub extra_open_walls-Opens :
    (r : Rng) (s : WallEdgeSet) (ratio : r.Real) (rng : r.State)
    → Opens s (extra_open_walls r s ratio rng).0
unfolding extra_open_walls
extra_open_walls-Opens r s ratio rng = open_some-Opens r s rng _ s.walls

Opens-if :
    (t : Bool) (s u : WallEdgeSet) (a b c d : ℕ)
    → Opens s u
    → Opens s (if t then remove_wall u a b c d else u)
Opens-if true s u a b c d o =
    λ a' b' c' d' h. Opens-remove_wall u a b c d a' b' c' d' (o a' b' c' d' h)
Opens-if false s u a b c d o = o

clear_walls_of-Opens :
    (s : WallEdgeSet) (n cx cy radius y x : ℕ) (t : WallEdgeSet)
    → Opens s t
    → Opens s (clear_walls_of n cx cy radius y x t)
unfolding clear_walls_of
clear_walls_of-Opens s n cx cy radius y x t o =
    Opens-if (ltb (y + 1) n && leb (y + 1) (cy + radius)) s _ x y x (y + 1)
      (Opens-if (ltb (x + 1) n && leb (x + 1) (cx + radius)) s t x y (x + 1) y o)

-- Clearing a safe zone builds no wall.
pub clear_safe_zone-Opens :
    (s : WallEdgeSet) (n cx cy radius : ℕ) → Opens s (clear_safe_zone s n cx cy radius)
unfolding clear_safe_zone
clear_safe_zone-Opens s n cx cy radius =
    for_range_inv (Opens s) _
      (λ y t o.
        for_range_inv (Opens s) _ (λ x t' o'. clear_walls_of-Opens s n cx cy radius y x t' o')
          (cx - radius) _ t o)
      (cy - radius) _ s (λ a b c d h. h)
