-- ===== src/MapGenerator/Ends.antt =====
-- The options of a map, and the choice of its two end rooms (`generate_random_start_end`, and step 3
-- of `generate_map`).
use maze_client.Prelude.{
  ℕ, zero, suc, ◌+◌, ◌*◌, ◌-◌, ◌/◌, leb, Bool, true, if◌then◌else◌, Option, none, some, min,
}
use maze_client.Prelude.Int.{ℤ, pos, negsuc, ◌+ℤ◌, ◌*ℤ◌, is_zero}
use maze_client.MapGenerator.Shortest.{minus_one}
use maze_client.MapGenerator.Random.{Rng}

-- `start_end_mode`; every other text selects the diagonal.
pub data Mode : Type 0 where
  fixed random diagonal : Mode

-- The two end rooms.
pub record Ends : Type 0 where
  pub start_rx : ℕ
  pub start_ry : ℕ
  pub end_rx : ℕ
  pub end_ry : ℕ

-- `z // n` for `n > 0`, which rounds down.
abbrev floor_div : ℤ → ℕ → ℤ
floor_div (pos a) n = pos (a / n)
floor_div (negsuc a) n = negsuc (a / n)

-- `max(0, min(top, z))`
abbrev clamp : ℕ → ℤ → ℕ
clamp top (pos a) = min top a
clamp top (negsuc a) = 0

-- `math.sqrt((sx - ex) ** 2 + (sy - ey) ** 2) >= min_distance`, by the squares.
unfoldable pub far_enough : ℤ → Ends → Bool
far_enough (negsuc m) e = true
far_enough (pos m) (e) =
    let dx = (e.start_rx - e.end_rx) + (e.end_rx - e.start_rx) in
    let dy = (e.start_ry - e.end_ry) + (e.end_ry - e.start_ry) in leb (m * m) (dx * dx + dy * dy)

module _ (r : Rng) where
  pub record Options : Type 0 where
    pub grid_dim : ℤ
    pub grid_size : ℤ
    pub wall_thickness : r.Real
    pub extra_open_ratio : r.Real
    pub start_end_mode : Mode
    pub fixed_start : r.Real × r.Real
    pub fixed_end : r.Real × r.Real
    pub min_distance : ℤ
    pub room_size : ℕ
    pub room_obstacle_density : r.Real

  -- `grid_dim * grid_size`
  abbrev pub map_size_of : Options → ℤ
  map_size_of o = o.grid_dim *ℤ o.grid_size

  -- The rounds of `generate_random_start_end` that are left.
  unfoldable pub random_ends : ℕ → ℕ → ℤ → r.State → Option Ends × r.State
  unfolding far_enough
  random_ends zero grid_dim min_distance rng = (none, rng)
  random_ends (suc left) grid_dim min_distance rng =
      let (sx, rng₁) = r.below grid_dim rng in
      let (sy, rng₂) = r.below grid_dim rng₁ in
      let (ex, rng₃) = r.below grid_dim rng₂ in
      let (ey, rng₄) = r.below grid_dim rng₃ in
      let ends : Ends = record { start_rx = sx; start_ry = sy; end_rx = ex; end_ry = ey } in
      let again = random_ends left grid_dim min_distance rng₄ in
      if far_enough min_distance ends then (some ends, rng₄) else again

  unfoldable pub generate_random_start_end : ℕ → ℤ → r.State → Option Ends × r.State
  unfolding random_ends
  generate_random_start_end = random_ends 500

  -- The room of a fixed coordinate, on a map that has a size.
  abbrev room_of : Options → ℕ → ℕ → r.Real → ℕ
  room_of o room_dim out_dim x =
      clamp (room_dim - 1)
        (floor_div (r.grid_cell (map_size_of o) out_dim x +ℤ minus_one) (o.room_size + 1))

  -- Step 3: the end rooms, by the mode. `none` is the ZeroDivisionError of a map without size.
  unfoldable pub choose_ends : Options → Mode → ℕ → ℕ → r.State → Option (Option Ends × r.State)
  unfolding generate_random_start_end
  choose_ends o fixed room_dim out_dim rng =
      if is_zero (map_size_of o)
      then none
      else some (
        some (record {
          start_rx = room_of o room_dim out_dim o.fixed_start.0;
          start_ry = room_of o room_dim out_dim o.fixed_start.1;
          end_rx = room_of o room_dim out_dim o.fixed_end.0;
          end_ry = room_of o room_dim out_dim o.fixed_end.1;
        }),
        rng,
      )
  choose_ends o random room_dim out_dim rng =
      some (generate_random_start_end room_dim o.min_distance rng)
  choose_ends o diagonal room_dim out_dim rng = some (
    some (record { start_rx = 0; start_ry = 0; end_rx = room_dim - 1; end_ry = room_dim - 1 }),
    rng,
  )
