-- ===== src/MapGenerator/Map/Passable.antt =====
-- The route of a map from the start to the goal. With obstacles it runs through the first cells of
-- the rooms, which stay open, and through the rooms of both ends, which have no obstacle.
use maze_client.Prelude.{ℕ, ◌+◌, ◌*◌, ◌/◌, ◌≤◌, ◌<◌, ◌≡◌, ◌⊎◌, inl, inr, refl, arith}
use maze_client.MapGenerator.Grid.{Grid, Pos}
use maze_client.MapGenerator.Walls.{WallEdgeSet}
use maze_client.MapGenerator.Carve.Spec.{room}
use maze_client.MapGenerator.Maze.Rooms.{Inside, Linked}
use maze_client.MapGenerator.Shortest.Moves.{Free}
use maze_client.MapGenerator.Random.{Rng}
use maze_client.MapGenerator.Ends.{Options, Ends}
use maze_client.MapGenerator.Map.{centre_of, blocked_grid}
use maze_client.MapGenerator.Map.Route.{
  Reaches, Reaches-trans, Both, row_route, column_route, rooms_route,
}
use maze_client.MapGenerator.Map.Final.{
  out_of, NoObstacles, start_cell, goal_cell, plain-Free, spared-Free, NotHit, corner-NotHit,
  start-NotHit, end-NotHit,
}

plus_zero : (a : ℕ) → a + 0 ≡ a
plus_zero a = omega arith

module _ (r : Rng) (o : Options r) where
  -- No obstacles, or rooms that are large enough for a way around them.
  abbrev pub IsPassable : Type 0
  IsPassable = NoObstacles r o ⊎ (3 ≤ o.room_size)

  module _ (n : ℕ) (e : Ends) (s : WallEdgeSet) (rng : r.State) where
    abbrev final : Grid
    final = blocked_grid r o n e s rng

    abbrev Leads : Pos → Pos → Type 0
    Leads = Reaches final (out_of r o n) (out_of r o n)

    plain_route :
        NoObstacles r o
        → 0 < o.room_size
        → 0 < n
        → Linked n s (e.start_rx, e.start_ry)
        → Linked n s (e.end_rx, e.end_ry)
        → Leads (start_cell r o e) (goal_cell r o e)
    plain_route plain some_cell some_room ls le =
        rooms_route s n o.room_size (o.room_size / 2) (omega (arith, some_cell)) final
          (λ x y h on. plain-Free r o n e s rng x y plain h) some_room ls le

    module _ (large : 3 ≤ o.room_size) where
      abbrev corner : ℕ → ℕ
      corner a = a * (o.room_size + 1) + 1

      corners_route :
          {p q : Pos}
          → 0 < n
          → Linked n s p
          → Linked n s q
          → Leads (corner p.0, corner p.1) (corner q.0, corner q.1)
      corners_route {p = p} {q = q} some_room lp lq =
          rw
            (
              plus_zero (corner p.0),
              plus_zero (corner p.1),
              plus_zero (corner q.0),
              plus_zero (corner q.1),
            )
            at
            (rooms_route s n o.room_size 0 (omega (arith, large)) final
              (λ x y h on.
                spared-Free r o n e s rng large x y (corner-NotHit r o n e s rng large x y on) h)
              some_room lp lq)

      -- Between the first cell and the centre of a room without obstacles, in both directions.
      corner_centre :
          (ax ay : ℕ)
          → ((dx dy : ℕ)
              → dx < o.room_size
              → dy < o.room_size
              → NotHit r o n e s rng large (corner ax + dx) (corner ay + dy))
          → Inside n (ax, ay)
          → Both final
              (out_of r o n)
              (out_of r o n)
              (corner ax, corner ay)
              (centre_of r o ax, centre_of r o ay)
      corner_centre ax ay spared inside =
          let up =
            column_route final (out_of r o n) (out_of r o n) (corner ax) (corner ay)
              (o.room_size / 2)
              (λ i h.
                rw plus_zero at (free 0 i (omega (arith, large)) (omega (arith, large, h)))) in
          let across =
            row_route final (out_of r o n) (out_of r o n) (corner ax) (corner ay + o.room_size / 2)
              (o.room_size / 2)
              (λ i h. free i (o.room_size / 2) (omega (arith, large, h)) (omega (arith, large))) in
          (Reaches-trans final _ _ up.0 across.0, Reaches-trans final _ _ across.1 up.1)
        where
          free :
              (dx dy : ℕ)
              → dx < o.room_size
              → dy < o.room_size
              → Free final (out_of r o n) (out_of r o n) (corner ax + dx, corner ay + dy)
          free dx dy hx hy =
              spared-Free r o n e s rng large _ _ (spared dx dy hx hy)
                (room ax ay dx dy inside.0 inside.1 hx hy refl refl)

      large_route :
          Inside n (e.start_rx, e.start_ry)
          → Inside n (e.end_rx, e.end_ry)
          → 0 < n
          → Linked n s (e.start_rx, e.start_ry)
          → Linked n s (e.end_rx, e.end_ry)
          → Leads (start_cell r o e) (goal_cell r o e)
      large_route start_in end_in some_room ls le =
          let out =
            corner_centre e.start_rx e.start_ry (start-NotHit r o n e s rng large) start_in in
          let home = corner_centre e.end_rx e.end_ry (end-NotHit r o n e s rng large) end_in in
          Reaches-trans final _ _ out.1
            (Reaches-trans final _ _ (corners_route some_room ls le) home.0)

    pub passable_route :
        IsPassable
        → 0 < o.room_size
        → Inside n (e.start_rx, e.start_ry)
        → Inside n (e.end_rx, e.end_ry)
        → 0 < n
        → Linked n s (e.start_rx, e.start_ry)
        → Linked n s (e.end_rx, e.end_ry)
        → Leads (start_cell r o e) (goal_cell r o e)
    passable_route (inl plain) some_cell start_in end_in = plain_route plain some_cell
    passable_route (inr large) some_cell start_in end_in = large_route large start_in end_in
