-- ===== src/MapGenerator/Segments.antt =====
-- `blocked_to_wall_segments`: the blocked cells as line segments for the replay page.
mod Marks
mod Cover
pub mod Runs
mod Tests
use maze_client.Prelude.{
  ℕ, zero, suc, ◌+◌, ◌-◌, ◌==◌, ltb, Bool, false, ◌&&◌, ◌||◌, not, if◌then◌else◌, List, [], ◌∷◌,
  ◌++◌,
}
use maze_client.Prelude.Loop.{for_range}
use maze_client.MapGenerator.Grid.{Grid, Pos, cell}

-- A segment from the centre of a cell to the centre of a cell, over the type of coordinates.
pub record Segment (F : Type 0) : Type 0 where
  pub x1 : F
  pub y1 : F
  pub x2 : F
  pub y2 : F
  pub thickness : F

pub record Scan (F : Type 0) : Type 0 where
  pub walls : List (Segment F)
  pub used : List Pos

-- `(x, y) in used`
unfoldable pub is_used : Pos → List Pos → Bool
is_used p [] = false
is_used (x, y) ((a, b) ∷ used) = x == a && y == b || is_used (x, y) used

module _ {F : Type 0} (blocked : Grid) (out_dim : ℕ) (centre : ℕ → F) (thickness : F) where
  -- `while gy < out_dim and blocked[gy][gx]: gy += 1`, with `out_dim - gy` as the rounds left.
  unfoldable pub column_end : ℕ → ℕ → ℕ → ℕ
  unfolding cell
  column_end zero gx gy = gy
  column_end (suc left) gx gy = if cell blocked gx gy then column_end left gx (gy + 1) else gy

  -- The same along a row, up to a used cell.
  unfoldable pub row_end : ℕ → List Pos → ℕ → ℕ → ℕ
  unfolding cell is_used
  row_end zero used gx gy = gx
  row_end (suc left) used gx gy =
      if cell blocked gx gy && not (is_used (gx, gy) used)
      then row_end left used (gx + 1) gy
      else gx

  -- The segment of a column from `start` up to `end_gy`, and the marks on its cells.
  unfoldable pub add_column : ℕ → ℕ → ℕ → Scan F → Scan F
  unfolding for_range
  add_column gx start end_gy s = record {
    walls =
        s.walls
        ++ record {
          x1 = centre gx;
          y1 = centre start;
          x2 = centre gx;
          y2 = centre (end_gy - 1);
          thickness = thickness;
        }
          ∷ [];
    used = for_range start end_gy (λ mark_gy used. (gx, mark_gy) ∷ used) s.used;
  }

  unfoldable pub add_row : ℕ → ℕ → ℕ → Scan F → Scan F
  unfolding for_range
  add_row gy start end_gx s = record {
    walls =
        s.walls
        ++ record {
          x1 = centre start;
          y1 = centre gy;
          x2 = centre (end_gx - 1);
          y2 = centre gy;
          thickness = thickness;
        }
          ∷ [];
    used = for_range start end_gx (λ mark_gx used. (mark_gx, gy) ∷ used) s.used;
  }

  -- `while gy < out_dim`, with fuel: every round moves `gy` on.
  unfoldable pub scan_column : ℕ → ℕ → ℕ → Scan F → Scan F
  unfolding cell is_used column_end add_column
  scan_column zero gx gy s = s
  scan_column (suc fuel) gx gy s =
      let end_gy = column_end (out_dim - gy) gx gy in
      let take = scan_column fuel gx end_gy (add_column gx gy end_gy s) in
      let skip = scan_column fuel gx (gy + 1) s in
      if ltb gy out_dim
      then (if cell blocked gx gy && not (is_used (gx, gy) s.used) then take else skip)
      else s

  unfoldable pub scan_row : ℕ → ℕ → ℕ → Scan F → Scan F
  unfolding cell is_used row_end add_row
  scan_row zero gy gx s = s
  scan_row (suc fuel) gy gx s =
      let end_gx = row_end (out_dim - gx) s.used gx gy in
      let take = scan_row fuel gy end_gx (add_row gy gx end_gx s) in
      let skip = scan_row fuel gy (gx + 1) s in
      if ltb gx out_dim
      then (if cell blocked gx gy && not (is_used (gx, gy) s.used) then take else skip)
      else s

  unfoldable pub blocked_to_wall_segments : List (Segment F)
  unfolding scan_column scan_row for_range
  blocked_to_wall_segments =
      let columns =
        for_range 0 out_dim (λ gx. scan_column out_dim gx 0) (record { walls = []; used = [] }) in
      let rows = for_range 0 out_dim (λ gy. scan_row out_dim gy 0) columns in rows.walls
