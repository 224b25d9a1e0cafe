-- ===== src/MapGenerator/Map/Final.antt =====
-- The final grid of a map: its size, and the cells that obstacles leave open.
use native.Mathlib.Nat.{mul-add-mod_self_right, mod-eq_of_lt}
use maze_client.Prelude.{
  ℕ, ◌+◌, ◌-◌, ◌*◌, ◌%◌, ◌≤◌, ◌<◌, ◌≡◌, inl, inr, refl, sym, ap, ◌∙◌, Bool, true, false, leb, ◌&&◌,
  ◌||◌, if◌then◌else◌, Bool-cases, arith,
}
use maze_client.MapGenerator.Grid.{Grid, Pos, Sized, cell}
use maze_client.MapGenerator.Walls.{WallEdgeSet}
use maze_client.MapGenerator.Carve.{edges_to_blocked_grid}
use maze_client.MapGenerator.Carve.Spec.{
  IsOpen, edges_to_blocked_grid-IsOpen, room-lt, band-lt, room, right, up,
}
use maze_client.MapGenerator.Obstacles.{clear_blocked_safe_zone, add_room_obstacles, is_safe}
use maze_client.MapGenerator.Obstacles.Laws.{
  OpenedFrom, clear_blocked_safe_zone-OpenedFrom, add_room_obstacles-Sized,
}
use maze_client.MapGenerator.Obstacles.Spared.{IsSpared, add_room_obstacles-keeps}
use maze_client.MapGenerator.Shortest.Moves.{Free}
use maze_client.MapGenerator.Random.{Rng}
use maze_client.MapGenerator.Ends.{Options, Ends}
use maze_client.MapGenerator.Map.{centre_of, blocked_grid}
use maze_client.MapGenerator.Map.Route.{OnTrack}

offset-mod : (a d m : ℕ) → d < m → (a * m + d) % m ≡ d
offset-mod a d m h = mul-add-mod_self_right a m d ∙ mod-eq_of_lt h

-- A factor above 0 cancels.
pub cancel : (a b m : ℕ) → 0 < m → a * m ≡ b * m → a ≡ b
cancel a b m pos_m e = grind arith

-- The room and the offset of a coordinate are unique.
pub offset_unique :
    (a b m d e : ℕ) → d < m → e < m → a * m + 1 + d ≡ b * m + 1 + e → (a ≡ b) × (d ≡ e)
offset_unique a b m d e hd he h =
    let same_sum : a * m + d ≡ b * m + e = omega arith in
    let same : d ≡ e = sym (offset-mod a d m hd) ∙ ap (λ z. z % m) same_sum ∙ offset-mod b e m he in
    (cancel a b m (omega arith) (omega arith), same)

within_refl : (a : ℕ) → (leb (a - a) 1 && leb (a - a) 1) ≡ true
within_refl a = ground arith

module _ (r : Rng) (o : Options r) where
  abbrev pub out_of : ℕ → ℕ
  out_of n = n * (o.room_size + 1) + 1

  abbrev pub NoObstacles : Type 0
  NoObstacles = (r.gt_zero o.room_obstacle_density && leb 2 o.room_size) ≡ false

  abbrev pub start_cell : Ends → Pos
  start_cell e = (centre_of r o e.start_rx, centre_of r o e.start_ry)

  abbrev pub goal_cell : Ends → Pos
  goal_cell e = (centre_of r o e.end_rx, centre_of r o e.end_ry)

  IsOpen-in_range :
      (s : WallEdgeSet) (n x y : ℕ) → IsOpen s n o.room_size x y → (x < out_of n) × (y < out_of n)
  IsOpen-in_range s n x y (room rx ry dx dy hx hy lx ly ex ey) =
      (rw ex (room-lt n o.room_size rx dx hx lx), rw ey (room-lt n o.room_size ry dy hy ly))
  IsOpen-in_range s n x y (right rx ry dy hx hy ly gone ex ey) =
      (rw ex (band-lt n o.room_size (rx + 1) hx), rw ey (room-lt n o.room_size ry dy hy ly))
  IsOpen-in_range s n x y (up rx ry dx hx hy lx gone ex ey) =
      (rw ex (room-lt n o.room_size rx dx hx lx), rw ey (band-lt n o.room_size (ry + 1) hy))

  module _ (n : ℕ) (e : Ends) (s : WallEdgeSet) (rng : r.State) where
    abbrev carved : Grid
    carved = (edges_to_blocked_grid o.room_size s n).0

    abbrev obstructed : Grid × r.State
    obstructed =
        add_room_obstacles r n o.room_size o.room_obstacle_density e.start_rx e.start_ry e.end_rx
          e.end_ry 1 (carved, rng)

    abbrev placed : Grid
    placed =
        (if r.gt_zero o.room_obstacle_density && leb 2 o.room_size
          then obstructed
          else (carved, rng)).0

    carved-Sized : Sized (out_of n) (out_of n) carved
    carved-Sized = (edges_to_blocked_grid-IsOpen s n o.room_size).1

    placed-Sized : Sized (out_of n) (out_of n) placed
    placed-Sized = elim (Bool-cases (r.gt_zero o.room_obstacle_density && leb 2 o.room_size)) [
      | inl some_asked ↦
          rw (placed, some_asked)
            (add_room_obstacles-Sized r (out_of n) n o.room_size o.room_obstacle_density e.start_rx
              e.start_ry e.end_rx e.end_ry 1 (carved, rng) carved-Sized)
      | inr plain ↦ rw (placed, plain) carved-Sized
    ]

    final-OpenedFrom : OpenedFrom (out_of n) placed (blocked_grid r o n e s rng)
    unfolding blocked_grid
    final-OpenedFrom =
        clear_blocked_safe_zone-OpenedFrom (out_of n) placed
          (clear_blocked_safe_zone placed (out_of n) (centre_of r o e.start_rx)
            (centre_of r o e.start_ry) 1)
          (centre_of r o e.end_rx) (centre_of r o e.end_ry) 1
          (clear_blocked_safe_zone-OpenedFrom (out_of n) placed placed (centre_of r o e.start_rx)
            (centre_of r o e.start_ry) 1 (record { sized = placed-Sized; open_stays = λ x y h. h }))

    pub blocked_grid-Sized : Sized (out_of n) (out_of n) (blocked_grid r o n e s rng)
    blocked_grid-Sized = final-OpenedFrom.sized

    -- A cell that the rooms and passages have, and that no obstacle came to.
    final-Free :
        (x y : ℕ)
        → IsOpen s n o.room_size x y
        → (cell carved x y ≡ false → cell placed x y ≡ false)
        → Free (blocked_grid r o n e s rng) (out_of n) (out_of n) (x, y)
    final-Free x y h kept =
        let (hx, hy) = IsOpen-in_range s n x y h in
        (
          hx,
          hy,
          final-OpenedFrom.open_stays x y
              (kept (((edges_to_blocked_grid-IsOpen s n o.room_size).2 x y hx hy).1 h)),
        )

    -- Without obstacles.
    pub plain-Free :
        (x y : ℕ)
        → NoObstacles
        → IsOpen s n o.room_size x y
        → Free (blocked_grid r o n e s rng) (out_of n) (out_of n) (x, y)
    plain-Free x y plain h = final-Free x y h (λ was. rw (placed, plain) was)

    module _ (large : 3 ≤ o.room_size) where
      abbrev pub NotHit : ℕ → ℕ → Type 0
      NotHit x y =
          IsSpared r o.room_size large o.room_obstacle_density x y n e.start_rx e.start_ry e.end_rx
            e.end_ry 1

      pub spared-Free :
          (x y : ℕ)
          → NotHit x y
          → IsOpen s n o.room_size x y
          → Free (blocked_grid r o n e s rng) (out_of n) (out_of n) (x, y)
      spared-Free x y spared h = final-Free x y h (λ was.
          elim (Bool-cases (r.gt_zero o.room_obstacle_density && leb 2 o.room_size)) [
            | inl some_asked ↦
                rw (placed, some_asked)
                  (add_room_obstacles-keeps r o.room_size large o.room_obstacle_density x y n
                    e.start_rx e.start_ry e.end_rx e.end_ry 1 false (carved, rng) spared was)
            | inr plain ↦ rw (placed, plain) was
          ])

      -- The first row and the first column of the cells of each room stay as they were.
      pub corner-NotHit :
          (x y : ℕ) → OnTrack s n o.room_size 0 (omega (arith, large)) x y → NotHit x y
      corner-NotHit x y (inl (b, on)) rx ry may (dx, dy, lx, ux, ly, uy, ex, ey) = absurd (
          omega (
            arith,
            (offset_unique b ry (o.room_size + 1) 0 dy (omega arith) (omega arith) (sym on ∙ ey)).1,
          ))
      corner-NotHit x y (inr (a, on)) rx ry may (dx, dy, lx, ux, ly, uy, ex, ey) = absurd (
          omega (
            arith,
            (offset_unique a rx (o.room_size + 1) 0 dx (omega arith) (omega arith) (sym on ∙ ex)).1,
          ))

      -- A room of an end is spared.
      safe_room-NotHit :
          (ax ay dx dy : ℕ)
          → dx < o.room_size
          → dy < o.room_size
          → is_safe r n o.room_size o.room_obstacle_density e.start_rx e.start_ry e.end_rx e.end_ry
              1 ay ax
            ≡ true
          → NotHit (ax * (o.room_size + 1) + 1 + dx) (ay * (o.room_size + 1) + 1 + dy)
      safe_room-NotHit ax ay dx dy hx hy safe rx ry may (dx', dy', lx, ux, ly, uy, ex, ey) =
          let same_x =
            (offset_unique ax rx (o.room_size + 1) dx dx' (omega arith) (omega arith) ex).0 in
          let same_y =
            (offset_unique ay ry (o.room_size + 1) dy dy' (omega arith) (omega arith) ey).0 in
          cc (safe, may, same_x, same_y)

      pub start-NotHit :
          (dx dy : ℕ)
          → dx < o.room_size
          → dy < o.room_size
          → NotHit
              (e.start_rx * (o.room_size + 1) + 1 + dx)
              (e.start_ry * (o.room_size + 1) + 1 + dy)
      start-NotHit dx dy hx hy =
          safe_room-NotHit e.start_rx e.start_ry dx dy hx hy
            (rw (within_refl e.start_rx, within_refl e.start_ry) refl)

      pub end-NotHit :
          (dx dy : ℕ)
          → dx < o.room_size
          → dy < o.room_size
          → NotHit (e.end_rx * (o.room_size + 1) + 1 + dx) (e.end_ry * (o.room_size + 1) + 1 + dy)
      end-NotHit dx dy hx hy =
          safe_room-NotHit e.end_rx e.end_ry dx dy hx hy
            (rw (within_refl e.end_rx, within_refl e.end_ry) (or-true _))
        where
          or-true : (b : Bool) → (b || true) ≡ true
          or-true true = refl
          or-true false = refl
