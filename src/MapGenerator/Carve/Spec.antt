-- ===== src/MapGenerator/Carve/Spec.antt =====
-- Which cells `edges_to_blocked_grid` leaves open.
use maze_client.Prelude.{
  ℕ, ◌+◌, ◌*◌, ◌<◌, ◌≡◌, ◌↔◌, ◌⊎◌, inl, inr, refl, arith, Bool, true, false, ltb, ◌&&◌, not,
}
use maze_client.Prelude.Loop.{for_range}
use maze_client.MapGenerator.Grid.{cell, set_cell, Sized, Sized-filled}
use maze_client.MapGenerator.Walls.{WallEdgeSet, has_wall}
use maze_client.MapGenerator.Carve.{
  fill_walls, dig_room, dig_right, dig_up, dig_passages, edges_to_blocked_grid,
}
use maze_client.MapGenerator.Carve.Paint.{
  Paints, Somewhere, Paints-set_cell, Paints-seq, Paints-if, Paints-for_range,
}

-- The room at `r` of `n` begins one cell behind its wall, and lies in the grid.
pub room-lt : (n k r d : ℕ) → r < n → d < k → r * (k + 1) + 1 + d < n * (k + 1) + 1
room-lt n k r d hr hd = grind arith

pub band-lt : (n k r : ℕ) → r < n → r * (k + 1) < n * (k + 1) + 1
band-lt n k r hr = grind arith

-- An open cell lies in a room, or in the passage of two rooms with no wall between them.
pub data IsOpen (s : WallEdgeSet) (n k x y : ℕ) : Type 0 where
  room :
      (rx ry dx dy : ℕ)
      → rx < n
      → ry < n
      → dx < k
      → dy < k
      → x ≡ rx * (k + 1) + 1 + dx
      → y ≡ ry * (k + 1) + 1 + dy
      → IsOpen s n k x y
  right :
      (rx ry dy : ℕ)
      → rx + 1 < n
      → ry < n
      → dy < k
      → has_wall s rx ry (rx + 1) ry ≡ false
      → x ≡ (rx + 1) * (k + 1)
      → y ≡ ry * (k + 1) + 1 + dy
      → IsOpen s n k x y
  up :
      (rx ry dx : ℕ)
      → rx < n
      → ry + 1 < n
      → dx < k
      → has_wall s rx ry rx (ry + 1) ≡ false
      → x ≡ rx * (k + 1) + 1 + dx
      → y ≡ (ry + 1) * (k + 1)
      → IsOpen s n k x y

module _ (s : WallEdgeSet) (n k : ℕ) where
  abbrev out : ℕ
  out = n * (k + 1) + 1

  fill_walls-blocked :
      Sized out out (fill_walls out)
      × ((x y : ℕ) → x < out → y < out → cell (fill_walls out) x y ≡ true)
  unfolding fill_walls
  fill_walls-blocked =
      let start = Sized-filled out out false in
      (
        all.size _ start,
        λ x y hx hy.
            (all.law _ start x y).1 (inr (y, omega arith, hy, (x, omega arith, hx, (refl, refl)))),
      )
    where
      all :
          Paints out out true
            (Somewhere out out true 0 out
              (λ gy. Somewhere out out true 0 out (λ gx x y. (x ≡ gx) × (y ≡ gy))))
            (for_range 0 out (λ gy. for_range 0 out (λ gx blocked. set_cell blocked gx gy true)))
      all = Paints-for_range out out true _ _ 0 out (omega arith) (λ gy _ hy.
          Paints-for_range out out true _ _ 0 out (omega arith)
            (λ gx _ hx. Paints-set_cell out out true gx gy hx hy))

  abbrev RoomArea : ℕ → ℕ → ℕ → ℕ → Type 0
  RoomArea ry rx = Somewhere out out false 0 k (λ dy.
      Somewhere out out false 0 k
        (λ dx x y. (x ≡ rx * (k + 1) + 1 + dx) × (y ≡ ry * (k + 1) + 1 + dy)))

  dig_room-Paints :
      (ry rx : ℕ) → ry < n → rx < n → Paints out out false (RoomArea ry rx) (dig_room k ry rx)
  unfolding dig_room
  dig_room-Paints ry rx hy hx = Paints-for_range out out false _ _ 0 k (omega arith) (λ dy _ ly.
      Paints-for_range out out false _ _ 0 k (omega arith) (λ dx _ lx.
        Paints-set_cell out out false _ _ (room-lt n k rx dx hx lx) (room-lt n k ry dy hy ly)))

  abbrev RightArea : ℕ → ℕ → ℕ → ℕ → Type 0
  RightArea ry rx =
      Somewhere out out false 0 k (λ dy x y. (x ≡ (rx + 1) * (k + 1)) × (y ≡ ry * (k + 1) + 1 + dy))

  abbrev UpArea : ℕ → ℕ → ℕ → ℕ → Type 0
  UpArea ry rx =
      Somewhere out out false 0 k (λ dx x y. (x ≡ rx * (k + 1) + 1 + dx) × (y ≡ (ry + 1) * (k + 1)))

  abbrev PassageArea : ℕ → ℕ → ℕ → ℕ → Type 0
  PassageArea ry rx x y =
      ((ltb (rx + 1) n && not (has_wall s rx ry (rx + 1) ry)) ≡ true) × RightArea ry rx x y
      ⊎ ((ltb (ry + 1) n && not (has_wall s rx ry rx (ry + 1))) ≡ true) × UpArea ry rx x y

  guard-lt : (a b : ℕ) (t : Bool) → (ltb a b && not t) ≡ true → (a < b) × (t ≡ false)
  guard-lt a b t h = ground arith

  dig_passages-Paints :
      (ry rx : ℕ)
      → ry < n
      → rx < n
      → Paints out out false (PassageArea ry rx) (dig_passages k s n ry rx)
  unfolding dig_passages dig_right dig_up
  dig_passages-Paints ry rx hy hx =
      Paints-seq out out false
        (Paints-if out out false (ltb (rx + 1) n && not (has_wall s rx ry (rx + 1) ry)) (λ t.
          Paints-for_range out out false _ _ 0 k (omega arith) (λ dy _ ly.
            Paints-set_cell out out false _ _ (band-lt n k (rx + 1) (guard-lt _ _ _ t).0)
              (room-lt n k ry dy hy ly))))
        (Paints-if out out false (ltb (ry + 1) n && not (has_wall s rx ry rx (ry + 1))) (λ t.
          Paints-for_range out out false _ _ 0 k (omega arith) (λ dx _ lx.
            Paints-set_cell out out false _ _ (room-lt n k rx dx hx lx)
              (band-lt n k (ry + 1) (guard-lt _ _ _ t).0))))

  abbrev Dug : ℕ → ℕ → Type 0
  Dug x y =
      Somewhere out out false 0 n (λ ry. Somewhere out out false 0 n (RoomArea ry)) x y
      ⊎ Somewhere out out false 0 n (λ ry. Somewhere out out false 0 n (PassageArea ry)) x y

  Dug-IsOpen : (x y : ℕ) → Dug x y ↔ IsOpen s n k x y
  Dug-IsOpen x y = (to, back)
    where
      to : Dug x y → IsOpen s n k x y
      to (inl (ry, _, hy, (rx, _, hx, (dy, _, ly, (dx, _, lx, (ex, ey)))))) =
          room rx ry dx dy hx hy lx ly ex ey
      to (inr (ry, _, hy, (rx, _, hx, inl (t, (dy, _, ly, (ex, ey)))))) =
          let (lt, gone) = guard-lt _ _ _ t in right rx ry dy lt hy ly gone ex ey
      to (inr (ry, _, hy, (rx, _, hx, inr (t, (dx, _, lx, (ex, ey)))))) =
          let (lt, gone) = guard-lt _ _ _ t in up rx ry dx hx lt lx gone ex ey

      back : IsOpen s n k x y → Dug x y
      back (room rx ry dx dy hx hy lx ly ex ey) = inl (
        ry,
        omega arith,
        hy,
        (rx, omega arith, hx, (dy, omega arith, ly, (dx, omega arith, lx, (ex, ey)))),
      )
      back (right rx ry dy hx hy ly gone ex ey) = inr (
        ry,
        omega arith,
        hy,
        (rx, omega arith, omega arith, inl (ground arith, (dy, omega arith, ly, (ex, ey)))),
      )
      back (up rx ry dx hx hy lx gone ex ey) = inr (
        ry,
        omega arith,
        omega arith,
        (rx, omega arith, hx, inr (ground arith, (dx, omega arith, lx, (ex, ey)))),
      )

  Dug-Paints : Paints out out false Dug (λ g.
      for_range 0 n
        (λ ry. for_range 0 n (dig_passages k s n ry))
        (for_range 0 n (λ ry. for_range 0 n (dig_room k ry)) g))
  Dug-Paints =
      Paints-seq out out false
        (Paints-for_range out out false _ _ 0 n (omega arith) (λ ry _ hy.
          Paints-for_range out out false _ _ 0 n (omega arith)
            (λ rx _ hx. dig_room-Paints ry rx hy hx)))
        (Paints-for_range out out false _ _ 0 n (omega arith) (λ ry _ hy.
          Paints-for_range out out false _ _ 0 n (omega arith)
            (λ rx _ hx. dig_passages-Paints ry rx hy hx)))

-- For every wall set, number of rooms `n` and room size `k`, the grid has `n * (k + 1) + 1` rows
-- of that length, which is the dimension returned, and a cell of it is open exactly if it lies in
-- a room or in the passage between two adjacent rooms of the grid with no wall between them.
pub edges_to_blocked_grid-IsOpen :
    (s : WallEdgeSet) (n k : ℕ)
    → ((edges_to_blocked_grid k s n).1 ≡ n * (k + 1) + 1)
      × Sized (n * (k + 1) + 1) (n * (k + 1) + 1) (edges_to_blocked_grid k s n).0
      × ((x y : ℕ)
          → x < n * (k + 1) + 1
          → y < n * (k + 1) + 1
          → (cell (edges_to_blocked_grid k s n).0 x y ≡ false) ↔ IsOpen s n k x y)
unfolding edges_to_blocked_grid
edges_to_blocked_grid-IsOpen s n k =
    let (sized, walls) = fill_walls-blocked s n k in
    let p = Dug-Paints s n k in
    (
      refl,
      p.size _ sized,
      λ x y hx hy.
          let law = p.law _ sized x y in
          let same = Dug-IsOpen s n k x y in
          (
            λ e. elim (law.0 e) [ inl was ↦ cc (walls x y hx hy) | inr dug ↦ same.0 dug ],
            λ o. law.1 (inr (same.1 o)),
          ),
    )
