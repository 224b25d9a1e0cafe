-- ===== src/MapGenerator/Segments/Runs.antt =====
-- `blocked_to_wall_segments`, both passes.
use maze_client.Prelude.{
  ℕ, zero, suc, ◌+◌, ◌<◌, ◌≡◌, refl, ap, ◌∙◌, ◌⊎◌, inl, inr, true, Bool-cases, [], ◌∈◌, arith, ltb,
}
use maze_client.Prelude.Loop.{for_range, for_range_at}
use maze_client.MapGenerator.Grid.{Grid, cell}
use maze_client.MapGenerator.Segments.{
  Segment, Scan, is_used, scan_column, scan_row, blocked_to_wall_segments,
}
use maze_client.MapGenerator.Segments.Marks.{Used, IsRun}
use maze_client.MapGenerator.Segments.Cover.{vertical, Covers, Inv, scan_column-Inv}

module _ {F : Type 0} (blocked : Grid) (n : ℕ) (centre : ℕ → F) (thickness : F) where
  start : Scan F
  start = record { walls = []; used = [] }

  start-Inv : Inv blocked n centre thickness 0 0 start
  unfolding is_used start
  start-Inv = record {
    fresh = λ x y u. cc;
    marked = λ x y h b on. absurd (nothing x y b);
    covered = λ x y h b on. absurd (nothing x y b);
    sound = λ w m. absurd m;
  }
    where
      nothing : (x y : ℕ) → (x < 0) ⊎ (x ≡ 0) × (y < 0) → ⊥
      nothing x y b = ground arith

  next-Inv :
      (gx : ℕ) (s : Scan F)
      → Inv blocked n centre thickness gx n s
      → Inv blocked n centre thickness (gx + 1) 0 s
  next-Inv gx s i = record {
    fresh = λ x y u. ground (arith, i.fresh x y u);
    marked = λ x y h b on. i.marked x y h (earlier x y h b) on;
    covered = λ x y h b on. i.covered x y h (earlier x y h b) on;
    sound = i.sound;
  }
    where
      earlier :
          (x y : ℕ) → y < n → (x < gx + 1) ⊎ (x ≡ gx + 1) × (y < 0) → (x < gx) ⊎ (x ≡ gx) × (y < n)
      earlier x y h b = ground arith

  columns : Scan F
  columns = for_range 0 n (λ gx. scan_column blocked n centre thickness n gx 0) start

  columns-Inv : Inv blocked n centre thickness n 0 columns
  unfolding columns
  columns-Inv =
      for_range_at (λ gx. Inv blocked n centre thickness gx 0) _ 0 n
        (λ gx s h i. next-Inv gx _ (
          scan_column-Inv blocked n centre thickness n gx 0 s h (omega arith) (omega arith)
            (λ _ _. inl refl) i))
        (omega arith) start start-Inv

  -- No blocked cell is left for the rows.
  abbrev AllUsed : Scan F → Type 0
  AllUsed s = (x y : ℕ) → x < n → y < n → cell blocked x y ≡ true → Used x y s.used

  scan_row-idle :
      (fuel gy gx : ℕ) (s : Scan F)
      → gy < n
      → AllUsed s
      → scan_row blocked n centre thickness fuel gy gx s ≡ s
  unfolding scan_row
  scan_row-idle zero gy gx s h all = refl
  scan_row-idle (suc fuel) gy gx s h all = elim (Bool-cases (ltb gx n)) [
    | inr done ↦ rw (scan_row, done) refl
    | inl more ↦ elim (Bool-cases (cell blocked gx gy)) [
      | inr off ↦ rw (scan_row, more, off) (scan_row-idle fuel gy (gx + 1) s h all)
      | inl on ↦
          rw (scan_row, more, on, all gx gy (inside gx more) h on)
            (scan_row-idle fuel gy (gx + 1) s h all)
    ]
  ]
    where
      inside : (gx : ℕ) → ltb gx n ≡ true → gx < n
      inside gx h = ground arith

  rows-idle :
      (s : Scan F)
      → AllUsed s
      → for_range 0 n (λ gy. scan_row blocked n centre thickness n gy 0) s ≡ s
  rows-idle s all =
      for_range_at (λ gy t. t ≡ s) _ 0 n
        (λ gy t h e.
          ap (scan_row blocked n centre thickness n gy 0) e ∙ scan_row-idle n gy 0 s h all)
        (omega arith) s refl

  columns-AllUsed : AllUsed columns
  columns-AllUsed x y hx hy on = columns-Inv.marked x y hy (inl hx) on

  segments-columns : blocked_to_wall_segments blocked n centre thickness ≡ columns.walls
  unfolding blocked_to_wall_segments columns start
  segments-columns = ap (λ s. s.walls) (rows-idle columns columns-AllUsed)

-- Each segment is vertical and spans the cells of a run: they are blocked, and the cell before and
-- the cell after them in the column are not, where the dimension has one.
pub blocked_to_wall_segments-IsRun :
    {F : Type 0} (blocked : Grid) (n : ℕ) (centre : ℕ → F) (thickness : F) (w : Segment F)
    → w ∈ blocked_to_wall_segments blocked n centre thickness
    → (x : ℕ) × (a : ℕ) × (b : ℕ) × IsRun blocked n x a b
      × (w ≡ vertical blocked n centre thickness x a b)
blocked_to_wall_segments-IsRun blocked n centre thickness w m =
    (columns-Inv blocked n centre thickness).sound w
      (rw (segments-columns blocked n centre thickness) at m)

-- Each blocked cell within the dimension lies on one of the segments.
pub blocked_to_wall_segments-Covers :
    {F : Type 0} (blocked : Grid) (n : ℕ) (centre : ℕ → F) (thickness : F) (x y : ℕ)
    → x < n
    → y < n
    → cell blocked x y ≡ true
    → Covers blocked n centre thickness (blocked_to_wall_segments blocked n centre thickness) x y
blocked_to_wall_segments-Covers blocked n centre thickness x y hx hy on =
    rw (segments-columns blocked n centre thickness)
      ((columns-Inv blocked n centre thickness).covered x y hy (inl hx) on)
