-- ===== src/MapGenerator/Obstacles.antt =====
-- `clear_blocked_safe_zone` and `add_room_obstacles`: later changes of the blocked grid.
pub mod Laws
pub mod Spared
use maze_client.Prelude.{ℕ, ◌+◌, ◌*◌, ◌-◌, ltb, leb, Bool, true, false, ◌&&◌, ◌||◌, if◌then◌else◌}
use maze_client.Prelude.Int.{ℤ, pos, sub_ℕ}
use maze_client.Prelude.Loop.{for_range}
use maze_client.MapGenerator.Grid.{Grid, set_cell}
use maze_client.MapGenerator.Random.{Rng}

-- `if 0 <= nx < out_dim and 0 <= ny < out_dim: blocked[ny][nx] = False`
unfoldable pub clear_at : ℕ → ℤ → ℤ → Grid → Grid
unfolding set_cell
clear_at out_dim (pos nx) (pos ny) blocked =
    if ltb nx out_dim && ltb ny out_dim then set_cell blocked nx ny false else blocked
clear_at out_dim _ _ blocked = blocked

-- The offsets `dy` and `dx` run from `-radius` to `radius`: round `j` has the offset `j - radius`.
unfoldable pub clear_blocked_safe_zone : Grid → ℕ → ℕ → ℕ → ℕ → Grid
unfolding clear_at for_range
clear_blocked_safe_zone blocked out_dim gx gy radius =
    for_range 0 (2 * radius + 1)
      (λ j.
        for_range 0 (2 * radius + 1)
          (λ i. clear_at out_dim (sub_ℕ (gx + i) radius) (sub_ℕ (gy + j) radius)))
      blocked

-- `abs(a - b) <= radius`
abbrev pub within : ℕ → ℕ → ℕ → Bool
within radius a b = leb (a - b) radius && leb (b - a) radius

module _ (r : Rng) where
  abbrev pub Placed : Type 0
  Placed = Grid × r.State

  -- `if rng.random() < density: blocked[y][x] = True`
  unfoldable pub place : r.Real → ℕ → ℕ → Placed → Placed
  unfolding set_cell
  place density x y (blocked, rng) =
      let (hit, rng') = r.chance density rng in
      (if hit then set_cell blocked x y true else blocked, rng')

  -- The loop over the inner cells of the room (rx, ry).
  unfoldable pub fill_room : ℕ → r.Real → ℕ → ℕ → Placed → Placed
  unfolding place for_range
  fill_room room_size density ry rx =
      let stride = room_size + 1 in
      let base_x = rx * stride + 1 in
      let base_y = ry * stride + 1 in
      let lo = if leb 3 room_size then 1 else 0 in
      let hi = if leb 3 room_size then room_size - 1 else room_size in
      for_range lo hi (λ dy. for_range lo hi (λ dx. place density (base_x + dx) (base_y + dy)))

  module _ (grid_dim room_size : ℕ) (density : r.Real)
      (start_rx start_ry end_rx end_ry safe_radius : ℕ) where
    -- The two guards with `continue`.
    abbrev pub is_safe : ℕ → ℕ → Bool
    is_safe ry rx =
        within safe_radius rx start_rx && within safe_radius ry start_ry
        || within safe_radius rx end_rx && within safe_radius ry end_ry

    unfoldable pub add_room_obstacles : Placed → Placed
    unfolding fill_room for_range
    add_room_obstacles placed =
        if r.le_zero density
        then placed
        else for_range 0 grid_dim
            (λ ry.
              for_range 0 grid_dim
                (λ rx s. if is_safe ry rx then s else fill_room room_size density ry rx s))
            placed
