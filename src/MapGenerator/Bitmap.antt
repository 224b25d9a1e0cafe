-- ===== src/MapGenerator/Bitmap.antt =====
-- `blocked_bitmap_bytes`: the grid as bytes, row by row.
pub mod Laws
use maze_client.Prelude.{
  ℕ, zero, suc, ◌+◌, ◌==◌, Bool, true, false, ◌||◌, not, if◌then◌else◌, Option, none, some, List,
  [], ◌∷◌, ◌++◌, length, map,
}
use maze_client.MapGenerator.Grid.{Grid, cell}

-- `any(len(row) != grid_cols for row in blocked)`
unfoldable pub any_row_off : ℕ → Grid → Bool
any_row_off grid_cols [] = false
any_row_off grid_cols (row ∷ rows) = not (length row == grid_cols) || any_row_off grid_cols rows

abbrev pub byte_of : Bool → ℕ
byte_of true = 1
byte_of false = 0

module _ (blocked : Grid) (grid_cols : ℕ) where
  -- The inner loop, with the columns left to go.
  unfoldable pub bytes_of_row : ℕ → ℕ → ℕ → List ℕ
  unfolding cell
  bytes_of_row gy zero gx = []
  bytes_of_row gy (suc left) gx = byte_of (cell blocked gx gy) ∷ bytes_of_row gy left (gx + 1)

  -- The outer loop, with the rows left to go.
  unfoldable pub bytes_of_rows : ℕ → ℕ → List ℕ
  unfolding bytes_of_row
  bytes_of_rows zero gy = []
  bytes_of_rows (suc left) gy = bytes_of_row gy grid_cols 0 ++ bytes_of_rows left (gy + 1)

  -- `none` is the ValueError.
  unfoldable pub blocked_bitmap_bytes : ℕ → Option (List ℕ)
  unfolding any_row_off bytes_of_rows
  blocked_bitmap_bytes grid_rows =
      if not (length blocked == grid_rows) || any_row_off grid_cols blocked
      then none
      else some (bytes_of_rows grid_rows 0)
