-- ===== src/MapGenerator/Bitmap/Laws.antt =====
-- The bitmap holds every cell once, at its row-major index.
use maze_client.Prelude.{
  ℕ, zero, suc, ◌+◌, ◌*◌, ◌<◌, ◌==◌, ◌≡◌, ◌↔◌, inl, inr, refl, ap, ◌∙◌, false, not, ◌||◌, none,
  some, List, [], ◌∷◌, ◌++◌, length, get_elem?, arith, Bool-cases, length-append, ==_iff,
}
use maze_client.MapGenerator.Grid.{Grid, cell, Sized, AllWide}
use maze_client.MapGenerator.Bitmap.{
  any_row_off, byte_of, bytes_of_row, bytes_of_rows, blocked_bitmap_bytes,
}

any_row_off_iff : (cols : ℕ) (g : Grid) → (any_row_off cols g ≡ false) ↔ AllWide cols g
unfolding any_row_off
any_row_off_iff cols [] = (λ e. tt, λ a. refl)
any_row_off_iff cols (row ∷ g) = ground (arith, any_row_off_iff cols g)

get_elem?-append_left :
    (xs ys : List ℕ) (i : ℕ) → i < length xs → get_elem? (xs ++ ys) i ≡ get_elem? xs i
get_elem?-append_left [] ys i h = absurd (omega arith)
get_elem?-append_left (x ∷ xs) ys zero h = refl
get_elem?-append_left (x ∷ xs) ys (suc i) h = get_elem?-append_left xs ys i (omega arith)

get_elem?-append_right :
    (xs ys : List ℕ) (i j : ℕ) → length xs + i ≡ j → get_elem? (xs ++ ys) j ≡ get_elem? ys i
get_elem?-append_right [] ys i j h = ap (get_elem? ys) (omega arith)
get_elem?-append_right (x ∷ xs) ys i zero h = absurd (omega arith)
get_elem?-append_right (x ∷ xs) ys i (suc j) h = get_elem?-append_right xs ys i j (omega arith)

module _ (g : Grid) (cols : ℕ) where
  length-bytes_of_row : (gy left gx : ℕ) → length (bytes_of_row g cols gy left gx) ≡ left
  unfolding bytes_of_row
  length-bytes_of_row gy zero gx = refl
  length-bytes_of_row gy (suc left) gx = ap suc (length-bytes_of_row gy left (gx + 1))

  get-bytes_of_row :
      (gy left gx i : ℕ)
      → i < left
      → get_elem? (bytes_of_row g cols gy left gx) i ≡ some (byte_of (cell g (gx + i) gy))
  unfolding bytes_of_row
  get-bytes_of_row gy zero gx i h = absurd (omega arith)
  get-bytes_of_row gy (suc left) gx zero h = let e : gx + 0 ≡ gx = omega arith in rw e
  get-bytes_of_row gy (suc left) gx (suc i) h =
      let e : gx + suc i ≡ gx + 1 + i = omega arith in
      rw e (get-bytes_of_row gy left (gx + 1) i (omega arith))

  length-bytes_of_rows : (left gy : ℕ) → length (bytes_of_rows g cols left gy) ≡ left * cols
  unfolding bytes_of_rows
  length-bytes_of_rows zero gy = omega arith
  length-bytes_of_rows (suc left) gy = omega (
    arith,
    length-append (bytes_of_row g cols gy cols 0) (bytes_of_rows g cols left (gy + 1)),
    length-bytes_of_row gy cols 0,
    length-bytes_of_rows left (gy + 1),
  )

  get-bytes_of_rows :
      (left gy j x : ℕ)
      → j < left
      → x < cols
      → get_elem? (bytes_of_rows g cols left gy) (j * cols + x) ≡ some (byte_of (cell g x (gy + j)))
  unfolding bytes_of_rows
  get-bytes_of_rows zero gy j x h hx = absurd (omega arith)
  get-bytes_of_rows (suc left) gy zero x h hx =
      let e : 0 * cols + x ≡ x = omega arith in
      let k : gy + 0 ≡ gy = omega arith in
      rw (e, k)
        (get_elem?-append_left (bytes_of_row g cols gy cols 0) _ x
            (omega (arith, length-bytes_of_row gy cols 0))
          ∙ get-bytes_of_row gy cols 0 x hx
          ∙ first)
    where
      first : some (byte_of (cell g (0 + x) gy)) ≡ some (byte_of (cell g x gy))
      first = let e : 0 + x ≡ x = omega arith in rw e
  get-bytes_of_rows (suc left) gy (suc j) x h hx =
      let k : gy + suc j ≡ gy + 1 + j = omega arith in
      rw k (
        get_elem?-append_right (bytes_of_row g cols gy cols 0) _ (j * cols + x) (suc j * cols + x)
          (omega (arith, length-bytes_of_row gy cols 0))
        ∙ get-bytes_of_rows left (gy + 1) j x (omega arith) hx)

-- A grid of the stated dimensions gives one byte for each cell, and the byte at the index
-- `y * cols + x` is 1 if the cell (x, y) is blocked and 0 if it is open. A grid of any other
-- dimensions is refused with the ValueError.
pub blocked_bitmap_bytes-IsBitmap :
    (g : Grid) (cols rows : ℕ)
    → (Sized cols rows g
        → (bytes : List ℕ) × (blocked_bitmap_bytes g cols rows ≡ some bytes)
          × (length bytes ≡ rows * cols)
          × ((x y : ℕ)
              → x < cols
              → y < rows
              → get_elem? bytes (y * cols + x) ≡ some (byte_of (cell g x y))))
      × (¬ Sized cols rows g → blocked_bitmap_bytes g cols rows ≡ none)
unfolding blocked_bitmap_bytes
blocked_bitmap_bytes-IsBitmap g cols rows = (
  λ s. (
    bytes_of_rows g cols rows 0,
    rw ((any_row_off_iff cols g).1 s.wide, (==_iff (length g) rows).1 s.rows),
    length-bytes_of_rows g cols rows 0,
    λ x y hx hy.
        get-bytes_of_rows g cols rows 0 y x hy hx ∙ (let e : 0 + y ≡ y = omega arith in rw e),
  ),
  λ off. elim (Bool-cases (not (length g == rows) || any_row_off cols g)) [
    | inl e ↦ rw e
    | inr e ↦
        absurd (off (record { rows = (split e).0; wide = (any_row_off_iff cols g).0 (split e).1 }))
  ],
)
  where
    split :
        (not (length g == rows) || any_row_off cols g) ≡ false
        → (length g ≡ rows) × (any_row_off cols g ≡ false)
    split e = ground arith
