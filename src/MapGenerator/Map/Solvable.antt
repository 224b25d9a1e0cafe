-- ===== src/MapGenerator/Map/Solvable.antt =====
-- Without obstacles, and with them in rooms of at least three cells a side, every generated map can
-- be solved.
use maze_client.Prelude.{
  ℕ, zero, suc, ◌+◌, ◌-◌, ◌≤◌, ◌<◌, ◌≡◌, ◌≢◌, ◌⊎◌, inl, inr, refl, ap, true, Option, some, arith,
}
use maze_client.Prelude.Int.{ℤ, pos, negsuc}
use maze_client.MapGenerator.Grid.{Grid, Pos, Sized}
use maze_client.MapGenerator.Walls.{WallEdgeSet}
use maze_client.MapGenerator.Bitmap.Laws.{blocked_bitmap_bytes-IsBitmap}
use maze_client.MapGenerator.Maze.Rooms.{
  Inside, Linked, Linked-Opens, extra_open_walls-Opens, clear_safe_zone-Opens,
}
use maze_client.MapGenerator.Maze.Connected.{generate_maze_edges-Joined}
use maze_client.MapGenerator.Shortest.Moves.{GridPath, here}
use maze_client.MapGenerator.Shortest.Correct.{shortest_action_steps-IsShortest}
use maze_client.MapGenerator.Random.{Rng}
use maze_client.MapGenerator.Ends.{Options, Ends, diagonal, choose_ends}
use maze_client.MapGenerator.Map.{
  Generated, MapData, generated, rooms_from, rooms_of, centre_of, map_of, finish_map, generate_map,
}
use maze_client.MapGenerator.Maze.{clear_safe_zone}
use maze_client.MapGenerator.Map.Route.{Reaches}
use maze_client.MapGenerator.Map.Final.{out_of, start_cell, goal_cell, blocked_grid-Sized, cancel}
use maze_client.MapGenerator.Map.Passable.{IsPassable, passable_route}

module _ (r : Rng) (o : Options r) where
  -- A map of `map_of`: it reports the length of a shortest path, which is positive.
  abbrev pub Solved : Option (Generated r) → Type 0
  Solved result =
      (d : MapData r) × (s : WallEdgeSet) × (len : ℕ) × (g : Grid) × (n : ℕ) × (result
        ≡ some (generated d s true (pos len) g n))
      × (0 < len)
      × GridPath g n n d.start_grid d.goal_grid len
      × ((k : ℕ) → GridPath g n n d.start_grid d.goal_grid k → len ≤ k)

  map_of-Solved :
      (seed : ℤ) (n : ℕ) (e : Ends) (s : WallEdgeSet) (g : Grid)
      → Sized (out_of r o n) (out_of r o n) g
      → Reaches g (out_of r o n) (out_of r o n) (start_cell r o e) (goal_cell r o e)
      → start_cell r o e ≢ goal_cell r o e
      → Solved (map_of r seed o n e s g)
  unfolding map_of
  map_of-Solved seed n e s g sized route apart =
      elim (shortest_action_steps-IsShortest g (out_of r o n) (out_of r o n) (start_cell r o e)
        (goal_cell r o e) sized) [
          | inl (zero, found, path, least) ↦ absurd (apart (no_moves path))
          | inl (suc len, found, path, least) ↦
              let (bytes, encoded, _, _) =
                (blocked_bitmap_bytes-IsBitmap g (out_of r o n) (out_of r o n)).0 sized in
              rw (found, encoded) (_, _, suc len, g, out_of r o n, refl, omega arith, path, least)
          | inr (found, lost) ↦ absurd (lost route.0 route.1)
        ]
    where
      no_moves : {p q : Pos} → GridPath g (out_of r o n) (out_of r o n) p q 0 → p ≡ q
      no_moves (here f) = refl

  abbrev pub AreInside : ℕ → Ends → Type 0
  AreInside n e = Inside n (e.start_rx, e.start_ry) × Inside n (e.end_rx, e.end_ry)

  abbrev pub AreApart : Ends → Type 0
  AreApart e = (e.start_rx ≢ e.end_rx) ⊎ (e.start_ry ≢ e.end_ry)

  centre_inj : (a b : ℕ) → centre_of r o a ≡ centre_of r o b → a ≡ b
  centre_inj a b h = cancel a b (o.room_size + 1) (omega arith) (omega arith)

  cells_apart : (e : Ends) → AreApart e → start_cell r o e ≢ goal_cell r o e
  cells_apart e (inl ne) same = ne (centre_inj e.start_rx e.end_rx (ap (λ (p : Pos). p.0) same))
  cells_apart e (inr ne) same = ne (centre_inj e.start_ry e.end_ry (ap (λ (p : Pos). p.1) same))

  pub finish_map-Solved :
      (seed : ℤ) (n : ℕ) (s : WallEdgeSet) (e : Ends) (rng : r.State)
      → IsPassable r o
      → 0 < o.room_size
      → AreInside n e
      → AreApart e
      → ((p : Pos) → Inside n p → Linked n s p)
      → Solved (finish_map r seed o n s (some e, rng))
  unfolding finish_map
  finish_map-Solved seed n s e rng passable some_cell inside apart linked =
      map_of-Solved seed n e cleared _ (blocked_grid-Sized r o n e cleared rng)
        (passable_route r o n e cleared rng passable some_cell inside.0 inside.1
          (omega (arith, inside.0.0)) (still_linked _ inside.0) (still_linked _ inside.1))
        (cells_apart e apart)
    where
      near_start : WallEdgeSet
      near_start = clear_safe_zone s n e.start_rx e.start_ry 1

      cleared : WallEdgeSet
      cleared = clear_safe_zone near_start n e.end_rx e.end_ry 1

      still_linked : (p : Pos) → Inside n p → Linked n cleared p
      still_linked p ip =
          Linked-Opens (clear_safe_zone-Opens near_start n e.end_rx e.end_ry 1)
            (Linked-Opens (clear_safe_zone-Opens s n e.start_rx e.start_ry 1) (linked p ip))

  rooms_from-two : (grid_dim : ℤ) (stride : ℕ) → 2 ≤ rooms_from r grid_dim stride
  rooms_from-two (pos n) stride = ground arith
  rooms_from-two (negsuc k) stride = omega arith

  pub rooms-two : 2 ≤ rooms_of r o
  rooms-two = rooms_from-two o.grid_dim (o.room_size + 1)

  abbrev ends_of_diagonal : ℕ → Ends
  ends_of_diagonal n = record { start_rx = 0; start_ry = 0; end_rx = n - 1; end_ry = n - 1 }

  choose_ends-diagonal :
      (n out : ℕ) (rng : r.State)
      → o.start_end_mode ≡ diagonal
      → choose_ends r o o.start_end_mode n out rng ≡ some (some (ends_of_diagonal n), rng)
  unfolding choose_ends
  choose_ends-diagonal n out rng e = rw e

-- With the end rooms on the diagonal and rooms of at least one cell, every seed of every generator
-- gives a map that can be solved, if it gets no obstacles (none asked for, or rooms too small for
-- them) or, whatever the obstacles are, if the rooms have at least three cells a side: the reported
-- length is positive, it is the length of a path from the start to the goal on the final grid, and
-- no path between them is shorter.
pub generate_map-Solved :
    (r : Rng) (o : Options r) (seed : ℤ)
    → IsPassable r o
    → 0 < o.room_size
    → o.start_end_mode ≡ diagonal
    → Solved r o (generate_map r seed o)
unfolding generate_map
generate_map-Solved r o seed passable some_cell mode =
    let n = rooms_of r o in
    let two = rooms-two r o in
    let (s, rng', made, linked) = generate_maze_edges-Joined r n (r.seeded seed) (omega arith) in
    let opened = extra_open_walls-Opens r s o.extra_open_ratio rng' in
    rw (made, choose_ends-diagonal r o n)
      (finish_map-Solved r o seed n _ (ends_of_diagonal r o n) _ passable some_cell
        ((omega arith, omega arith), (omega arith, omega arith)) (inl (λ e. absurd (omega arith)))
        (λ p ip. Linked-Opens opened (linked p ip)))
