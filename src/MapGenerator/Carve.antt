-- ===== src/MapGenerator/Carve.antt =====
-- `edges_to_blocked_grid`: rooms of `room_size` cells a side, walls of one cell between them.
pub mod Paint
pub mod Spec
use maze_client.Prelude.{ℕ, zero, suc, ◌+◌, ◌*◌, ltb, Bool, true, false, ◌&&◌, not, if◌then◌else◌}
use maze_client.Prelude.Loop.{for_range}
use maze_client.MapGenerator.Grid.{Grid, filled, set_cell}
use maze_client.MapGenerator.Walls.{WallEdgeSet, has_wall}

-- Step 1: every cell is a wall.
unfoldable pub fill_walls : ℕ → Grid
unfolding for_range set_cell filled
fill_walls out_dim =
    for_range 0 out_dim (λ gy. for_range 0 out_dim (λ gx blocked. set_cell blocked gx gy true))
      (filled out_dim out_dim false)

module _ (room_size : ℕ) where
  abbrev pub stride : ℕ
  stride = room_size + 1

  -- The body of step 2: room (rx, ry) becomes open.
  unfoldable pub dig_room : ℕ → ℕ → Grid → Grid
  unfolding for_range set_cell
  dig_room ry rx =
      let base_x = rx * stride + 1 in
      let base_y = ry * stride + 1 in
      for_range 0 room_size (λ dy.
        for_range 0 room_size (λ dx blocked. set_cell blocked (base_x + dx) (base_y + dy) false))

  -- The wall column between (rx, ry) and (rx + 1, ry), along the room.
  unfoldable pub dig_right : ℕ → ℕ → Grid → Grid
  unfolding for_range set_cell
  dig_right ry rx =
      let wall_col = (rx + 1) * stride in
      let base_y = ry * stride + 1 in
      for_range 0 room_size (λ dy blocked. set_cell blocked wall_col (base_y + dy) false)

  -- The wall row between (rx, ry) and (rx, ry + 1), along the room.
  unfoldable pub dig_up : ℕ → ℕ → Grid → Grid
  unfolding for_range set_cell
  dig_up ry rx =
      let wall_row = (ry + 1) * stride in
      let base_x = rx * stride + 1 in
      for_range 0 room_size (λ dx blocked. set_cell blocked (base_x + dx) wall_row false)

  -- The body of step 3: the passages of room (rx, ry) to the right and up.
  unfoldable pub dig_passages : WallEdgeSet → ℕ → ℕ → ℕ → Grid → Grid
  unfolding dig_right dig_up has_wall
  dig_passages edge_set grid_dim ry rx blocked =
      let blocked' =
        if ltb (rx + 1) grid_dim && not (has_wall edge_set rx ry (rx + 1) ry)
        then dig_right ry rx blocked
        else blocked in
      if ltb (ry + 1) grid_dim && not (has_wall edge_set rx ry rx (ry + 1))
      then dig_up ry rx blocked'
      else blocked'

  -- The grid and its dimension.
  unfoldable pub edges_to_blocked_grid : WallEdgeSet → ℕ → Grid × ℕ
  unfolding fill_walls dig_room dig_passages for_range
  edges_to_blocked_grid edge_set grid_dim =
      let out_dim = grid_dim * stride + 1 in
      let rooms =
        for_range 0 grid_dim (λ ry. for_range 0 grid_dim (dig_room ry)) (fill_walls out_dim) in
      let passages =
        for_range 0 grid_dim (λ ry. for_range 0 grid_dim (dig_passages edge_set grid_dim ry))
          rooms in
      (passages, out_dim)
