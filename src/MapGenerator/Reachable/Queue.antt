-- ===== src/MapGenerator/Reachable/Queue.antt =====
-- The queue of the search over the rooms: its levels, and the paths through the rooms.
use maze_client.Prelude.{
  ℕ, suc, ◌+◌, ◌≤◌, ◌≡◌, ◌⊎◌, inl, inr, refl, false, List, [], ◌∷◌, ◌++◌, ◌∈◌,
}
use maze_client.MapGenerator.Grid.{Pos}
use maze_client.MapGenerator.Walls.{WallEdgeSet, has_wall}
use maze_client.MapGenerator.Maze.Rooms.{Adjacent, Inside}
use maze_client.MapGenerator.Reachable.{Waiting}

-- The room (`q`) is beside `p` in the grid, and no wall is between them.
abbrev pub Passage : ℕ → WallEdgeSet → Pos → Pos → Type 0
Passage n s p q = Adjacent p q × Inside n q × (has_wall s p.0 p.1 q.0 q.1 ≡ false)

-- The paths from `start`, by the number of their passages.
pub data RoomPath (n : ℕ) (s : WallEdgeSet) (start : Pos) : Pos → ℕ → Type 0 where
  here : RoomPath n s start start 0
  step :
      {p q : Pos} {d : ℕ} → RoomPath n s start p d → Passage n s p q → RoomPath n s start q (suc d)

-- The distance of a room, by a shortest path.
abbrev pub Arrived : ℕ → WallEdgeSet → Pos → Pos → ℕ → Type 0
Arrived n s start p d = RoomPath n s start p d × ((e : ℕ) → RoomPath n s start p e → d ≤ e)

pub RoomPath-Inside :
    {n : ℕ} {s : WallEdgeSet} {start p : Pos} {d : ℕ}
    → Inside n start
    → RoomPath n s start p d
    → Inside n p
RoomPath-Inside i here = i
RoomPath-Inside i (step w (adj, inside, gone)) = inside

-- Rooms at distance `k`, then rooms at distance `k + 1`.
abbrev pub Later : ℕ → List Waiting → Type 0
Later k [] = Unit {0}
Later k ((p, d) ∷ ws) = (d ≡ k + 1) × Later k ws

abbrev pub Banded : ℕ → List Waiting → Type 0
Banded k [] = Unit {0}
Banded k ((p, d) ∷ ws) = (d ≡ k) × Banded k ws ⊎ Later k ((p, d) ∷ ws)

Later-concat : (k : ℕ) (q : Pos) (ws : List Waiting) → Later k ws → Later k (ws ++ (q, k + 1) ∷ [])
Later-concat k q [] l = (refl, tt)
Later-concat k q (w ∷ ws) l = (l.0, Later-concat k q ws l.1)

pub Banded-concat :
    (k : ℕ) (q : Pos) (ws : List Waiting) → Banded k ws → Banded k (ws ++ (q, k + 1) ∷ [])
Banded-concat k q [] b = inr (refl, tt)
Banded-concat k q (w ∷ ws) (inl b) = inl (b.0, Banded-concat k q ws b.1)
Banded-concat k q (w ∷ ws) (inr l) = inr (l.0, Later-concat k q ws l.1)

Later-Banded : (k : ℕ) (ws : List Waiting) → Later k ws → Banded (k + 1) ws
Later-Banded k [] l = tt
Later-Banded k (w ∷ ws) l = inl (l.0, Later-Banded k ws l.1)

pub Later-mem : (k : ℕ) (p : Pos) (d : ℕ) (ws : List Waiting) → Later k ws → (p, d) ∈ ws → d ≡ k + 1
Later-mem k p d [] l m = absurd m
Later-mem k p d ((q, e) ∷ ws) l (inl same) = cc (l.0, same)
Later-mem k p d ((q, e) ∷ ws) l (inr m) = Later-mem k p d ws l.1 m

-- The head of the queue is at the level, or at the next one, where the whole queue is.
pub Banded-next :
    (k : ℕ) (p : Pos) (d : ℕ) (ws : List Waiting)
    → Banded k ((p, d) ∷ ws)
    → Banded d ws × ((d ≡ k) ⊎ (d ≡ k + 1) × Later k ((p, d) ∷ ws))
Banded-next k p d ws (inl (e, b)) = (rw e b, inl e)
Banded-next k p d ws (inr l) = (rw l.0 (Later-Banded k ws l.1), inr (l.0, l))
