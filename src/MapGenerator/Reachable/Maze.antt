-- ===== src/MapGenerator/Reachable/Maze.antt =====
-- In a generated maze the search finds a path between any two rooms.
use maze_client.Prelude.{ℕ, suc, ◌<◌, ◌≡◌, inl, inr, ◌∙◌, true, some, arith}
use maze_client.Prelude.Int.{pos}
use maze_client.MapGenerator.Grid.{Pos}
use maze_client.MapGenerator.Walls.{WallEdgeSet}
use maze_client.MapGenerator.Walls.Laws.{has_wall-swap}
use maze_client.MapGenerator.Random.{Rng}
use maze_client.MapGenerator.Maze.{generate_maze_edges}
use maze_client.MapGenerator.Maze.Rooms.{Adjacent, Inside, Linked}
use maze_client.MapGenerator.Maze.Rooms
use maze_client.MapGenerator.Maze.Connected.{generate_maze_edges-Joined}
use maze_client.MapGenerator.Reachable.{bfs_reachable}
use maze_client.MapGenerator.Reachable.Queue.{Passage, RoomPath, here, step}
use maze_client.MapGenerator.Reachable.Correct.{bfs_reachable-IsReached}

module _ (n : ℕ) (s : WallEdgeSet) where
  abbrev Between : Pos → Pos → Type 0
  Between p q = (d : ℕ) × RoomPath n s p q d

  Between-trans : {p q t : Pos} → Between p q → Between q t → Between p t
  Between-trans (a, u) (b, v) = go u v
    where
      go : {p q t : Pos} {a b : ℕ} → RoomPath n s p q a → RoomPath n s q t b → Between p t
      go {a = a} u here = (a, u)
      go u (step v way) = let (d, w) = go u v in (suc d, step w way)

  Adjacent-swap : (p q : Pos) → Adjacent p q → Adjacent q p
  Adjacent-swap (x, y) (x', y') adj = ground arith

  -- Both ways between the room (0, 0) and a room that is linked to it.
  Linked-Between : {p : Pos} → Linked n s p → Between (0, 0) p × Between p (0, 0)
  Linked-Between Rooms.origin = ((0, here), (0, here))
  Linked-Between (Rooms.step {p} {q} l adj ip iq gone) =
      let ((d, there), back) = Linked-Between l in
      let way_back : Passage n s q p =
        (Adjacent-swap p q adj, ip, has_wall-swap s q.0 q.1 p.0 p.1 ∙ gone) in
      ((suc d, step there (adj, iq, gone)), Between-trans (1, step here way_back) back)

  Linked-reached :
      (start goal : Pos)
      → Inside n start
      → Linked n s start
      → Linked n s goal
      → (d : ℕ) × (bfs_reachable s n start.0 start.1 goal.0 goal.1 ≡ some (true, pos d))
  Linked-reached start goal from ls lg = elim (bfs_reachable-IsReached s n start goal from) [
    | inl (d, found, _) ↦ (d, found)
    | inr (_, lost) ↦
        let (e, path) = Between-trans (Linked-Between ls).1 (Linked-Between lg).0 in
        absurd (lost e path)
  ]

-- For every generator and every number of rooms from 1, the maze comes out such that the search
-- answers true, with a number that is not negative, for any two rooms of the grid.
pub generate_maze_edges-reached :
    (r : Rng) (n : ℕ) (rng : r.State)
    → 0 < n
    → (s : WallEdgeSet) × (rng' : r.State) × (generate_maze_edges r n rng ≡ some (s, rng'))
      × ((start goal : Pos)
          → Inside n start
          → Inside n goal
          → (d : ℕ) × (bfs_reachable s n start.0 start.1 goal.0 goal.1 ≡ some (true, pos d)))
generate_maze_edges-reached r n rng some_room =
    let (s, rng', made, linked) = generate_maze_edges-Joined r n rng some_room in
    (
      s,
      rng',
      made,
      λ start goal from to. Linked-reached n s start goal from (linked start from) (linked goal to),
    )
