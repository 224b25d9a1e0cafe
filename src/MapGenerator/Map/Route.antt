-- ===== src/MapGenerator/Map/Route.antt =====
-- Joined rooms are joined by free cells: the route from a room to the next runs straight through
-- the passage, between cells with the same offset in their rooms.
use maze_client.Prelude.{
  ℕ, zero, suc, ◌+◌, ◌-◌, ◌*◌, ◌≤◌, ◌<◌, ◌≡◌, ◌⊎◌, inl, inr, refl, ◌∙◌, false, arith,
}
use maze_client.MapGenerator.Grid.{Grid, Pos}
use maze_client.MapGenerator.Walls.{WallEdgeSet, has_wall}
use maze_client.MapGenerator.Walls.Laws.{has_wall-swap}
use maze_client.MapGenerator.Carve.Spec.{IsOpen, room, right, up}
use maze_client.MapGenerator.Maze.Rooms.{Adjacent, Inside, Linked}
use maze_client.MapGenerator.Maze.Rooms
use maze_client.MapGenerator.Shortest.Moves.{GridPath, Free, Move, here, step}

module _ (blocked : Grid) (cols rows : ℕ) where
  abbrev pub Reaches : Pos → Pos → Type 0
  Reaches p q = (d : ℕ) × GridPath blocked cols rows p q d

  pub Reaches-trans : {p q s : Pos} → Reaches p q → Reaches q s → Reaches p s
  Reaches-trans (a, u) (b, v) = go u v
    where
      go :
          {p q s : Pos} {a b : ℕ}
          → GridPath blocked cols rows p q a
          → GridPath blocked cols rows q s b
          → Reaches p s
      go {a = a} u (here f) = (a, u)
      go u (step v m) = let (d, w) = go u v in (suc d, step w m)

  abbrev pub Both : Pos → Pos → Type 0
  Both p q = Reaches p q × Reaches q p

  stay : (p : Pos) → Free blocked cols rows p → Both p p
  stay p f = ((0, here f), (0, here f))

  extend :
      (p q s : Pos)
      → Free blocked cols rows q
      → Free blocked cols rows s
      → Move blocked cols rows q s
      → Move blocked cols rows s q
      → Both p q
      → Both p s
  extend p q s fq fs there back (u, v) =
      (Reaches-trans u (1, step (here fq) there), Reaches-trans (1, step (here fs) back) v)

  -- A row of free cells, in both directions.
  pub row_route :
      (x y len : ℕ)
      → ((i : ℕ) → i ≤ len → Free blocked cols rows (x + i, y))
      → Both (x, y) (x + len, y)
  row_route x y zero free =
      let e : x + 0 ≡ x = omega arith in rw e (stay (x, y) (rw e at (free 0 (omega arith))))
  row_route x y (suc len) free =
      let near = free len (omega arith) in
      let far = free (suc len) (omega arith) in
      extend (x, y) (x + len, y) (x + suc len, y) near far (far, inl (inl (omega arith), refl))
        (near, inl (inr (omega arith), refl)) (row_route x y len (λ i h. free i (omega arith)))

  pub column_route :
      (x y len : ℕ)
      → ((i : ℕ) → i ≤ len → Free blocked cols rows (x, y + i))
      → Both (x, y) (x, y + len)
  column_route x y zero free =
      let e : y + 0 ≡ y = omega arith in rw e (stay (x, y) (rw e at (free 0 (omega arith))))
  column_route x y (suc len) free =
      let near = free len (omega arith) in
      let far = free (suc len) (omega arith) in
      extend (x, y) (x, y + len) (x, y + suc len) near far
        (far, inr (inl (refl, inl (omega arith)))) (near, inr (inl (refl, inr (omega arith))))
        (column_route x y len (λ i h. free i (omega arith)))

trichotomy : (a b : ℕ) → (a < b) ⊎ ((a ≡ b) ⊎ (b < a))
trichotomy a b = ground arith

-- The route keeps to the cell with the offset `c` of each room, on both axes.
module _ (s : WallEdgeSet) (n k c : ℕ) (in_room : c < k) where
  abbrev pub spot : Pos → Pos
  spot (rx, ry) = (rx * (k + 1) + 1 + c, ry * (k + 1) + 1 + c)

  -- The rows and columns that the route runs along.
  abbrev pub OnTrack : ℕ → ℕ → Type 0
  OnTrack x y = ((ry : ℕ) × (y ≡ ry * (k + 1) + 1 + c)) ⊎ ((rx : ℕ) × (x ≡ rx * (k + 1) + 1 + c))

  right-IsOpen :
      (rx ry i : ℕ)
      → rx + 1 < n
      → ry < n
      → has_wall s rx ry (rx + 1) ry ≡ false
      → i ≤ k + 1
      → IsOpen s n k (rx * (k + 1) + 1 + c + i) (ry * (k + 1) + 1 + c)
  right-IsOpen rx ry i hx hy gone hi = elim (trichotomy i (k - c)) [
    | inl less ↦
        room rx ry (c + i) (c) (omega arith) hy (omega arith) (omega arith) (omega arith) refl
    | inr (inl same) ↦ right rx ry (c) hx hy (omega arith) gone (omega arith) refl
    | inr (inr more) ↦
        room (rx + 1) ry (i - (k - c) - 1) (c) hx hy (omega arith) (omega arith) (omega arith) refl
  ]

  up-IsOpen :
      (rx ry i : ℕ)
      → rx < n
      → ry + 1 < n
      → has_wall s rx ry rx (ry + 1) ≡ false
      → i ≤ k + 1
      → IsOpen s n k (rx * (k + 1) + 1 + c) (ry * (k + 1) + 1 + c + i)
  up-IsOpen rx ry i hx hy gone hi = elim (trichotomy i (k - c)) [
    | inl less ↦
        room rx ry (c) (c + i) hx (omega arith) (omega arith) (omega arith) refl (omega arith)
    | inr (inl same) ↦ up rx ry (c) hx hy (omega arith) gone refl (omega arith)
    | inr (inr more) ↦
        room rx (ry + 1) (c) (i - (k - c) - 1) hx hy (omega arith) (omega arith) refl (omega arith)
  ]

  module _ (blocked : Grid)
      (open_free : (x y : ℕ)
        → IsOpen s n k x y
        → OnTrack x y
        → Free blocked (n * (k + 1) + 1) (n * (k + 1) + 1) (x, y)) where
    abbrev pub LinkedBoth : Pos → Pos → Type 0
    LinkedBoth p q = Both blocked (n * (k + 1) + 1) (n * (k + 1) + 1) (spot p) (spot q)

    to_right :
        (x y : ℕ)
        → x + 1 < n
        → y < n
        → has_wall s x y (x + 1) y ≡ false
        → LinkedBoth (x, y) (x + 1, y)
    to_right x y hx hy gone =
        let e : x * (k + 1) + 1 + c + (k + 1) ≡ (x + 1) * (k + 1) + 1 + c = omega arith in
        rw (← e) (
          row_route blocked _ _ _ _ (k + 1)
            (λ i h. open_free _ _ (right-IsOpen x y i hx hy gone h) (inl (y, refl))))

    to_up :
        (x y : ℕ)
        → x < n
        → y + 1 < n
        → has_wall s x y x (y + 1) ≡ false
        → LinkedBoth (x, y) (x, y + 1)
    to_up x y hx hy gone =
        let e : y * (k + 1) + 1 + c + (k + 1) ≡ (y + 1) * (k + 1) + 1 + c = omega arith in
        rw (← e) (
          column_route blocked _ _ _ _ (k + 1)
            (λ i h. open_free _ _ (up-IsOpen x y i hx hy gone h) (inr (x, refl))))

    flip : (p q : Pos) → LinkedBoth p q → LinkedBoth q p
    flip p q (there, back) = (back, there)

    link :
        (p q : Pos)
        → Adjacent p q
        → Inside n p
        → Inside n q
        → has_wall s p.0 p.1 q.0 q.1 ≡ false
        → LinkedBoth p q
    link (x, y) (x', y') (inl (inl e, same)) ip iq gone =
        rw (← e, ← same) (to_right x y (omega arith) ip.1 (rw (← e, ← same) at gone))
    link (x, y) (x', y') (inl (inr e, same)) ip iq gone =
        rw (← e, same)
          (flip (x', y') (x' + 1, y')
            (to_right x' y' (omega arith) iq.1
              (has_wall-swap s x' y' (x' + 1) y' ∙ (rw (← e, same) at gone))))
    link (x, y) (x', y') (inr (same, inl e)) ip iq gone =
        rw (← e, ← same) (to_up x y ip.0 (omega arith) (rw (← e, ← same) at gone))
    link (x, y) (x', y') (inr (same, inr e)) ip iq gone =
        rw (← e, same)
          (flip (x', y') (x', y' + 1)
            (to_up x' y' iq.0 (omega arith)
              (has_wall-swap s x' y' x' (y' + 1) ∙ (rw (← e, same) at gone))))

    -- Both ways between the room (0, 0) and a room joined to it.
    pub Linked-both : 0 < n → {p : Pos} → Linked n s p → LinkedBoth (0, 0) p
    Linked-both some_room Rooms.origin =
        stay blocked _ _ (spot (0, 0)) (
          open_free _ _ (room 0 0 c c some_room some_room in_room in_room refl refl)
            (inl (0, refl)))
    Linked-both some_room (Rooms.step {p} {q} l adj ip iq gone) =
        let (there, back) = Linked-both some_room l in
        let (on, home) = link p q adj ip iq gone in
        (Reaches-trans blocked _ _ there on, Reaches-trans blocked _ _ home back)

    -- A route between two rooms that are joined to (0, 0).
    pub rooms_route :
        0 < n
        → {p q : Pos} → Linked n s p
        → Linked n s q
        → Reaches blocked (n * (k + 1) + 1) (n * (k + 1) + 1) (spot p) (spot q)
    rooms_route some_room lp lq =
        Reaches-trans blocked _ _ (Linked-both some_room lp).1 (Linked-both some_room lq).0
