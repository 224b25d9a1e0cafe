-- ===== src/MapGenerator/Shortest/Moves.antt =====
-- The moves of an agent, stated on cells, and the paths that they make.
use maze_client.Prelude.{
  ℕ, ◌-◌, suc, ◌+◌, ◌*◌, ◌/◌, ◌%◌, ◌<◌, ◌≡◌, ◌⊎◌, inl, inr, refl, false, ◌∈◌, some, arith,
}
use maze_client.Prelude.Int.{ℤ}
use maze_client.MapGenerator.Grid.{Grid, Pos, cell}
use maze_client.MapGenerator.Shortest.{
  action_directions, step_from, step_target, still, one, minus_one,
}

abbrev Beside : ℕ → ℕ → Type 0
Beside a b = (a + 1 ≡ b) ⊎ (b + 1 ≡ a)

module _ (blocked : Grid) (cols rows : ℕ) where
  abbrev pub Free : Pos → Type 0
  Free (x, y) = (x < cols) × (y < rows) × (cell blocked x y ≡ false)

  -- One cell left, right, up or down, or one cell along a diagonal past two free corners.
  abbrev pub Move : Pos → Pos → Type 0
  Move (x, y) (x', y') =
      Free (x', y')
      × (Beside x x' × (y ≡ y')
          ⊎ ((x ≡ x') × Beside y y' ⊎ Beside x x' × Beside y y' × Free (x', y) × Free (x, y')))

  -- The paths from `start`, by the number of their moves.
  pub data GridPath (start : Pos) : Pos → ℕ → Type 0 where
    here : Free start → GridPath start start 0
    step : {p q : Pos} {d : ℕ} → GridPath start p d → Move p q → GridPath start q (suc d)

  unfoldable pub index : Pos → ℕ
  index (x, y) = y * cols + x

  pub index-mod : (p : Pos) → p.0 < cols → index p % cols ≡ p.0
  unfolding index
  index-mod p h = grind arith

  pub index-div : (p : Pos) → p.0 < cols → index p / cols ≡ p.1
  unfolding index
  index-div p h = grind arith

  abbrev Leads : Pos → ℤ × ℤ → Pos → Type 0
  Leads (x, y) d q =
      (i : ℕ) → step_from blocked cols rows x y d ≡ some i → Move (x, y) q × (i ≡ index q)

  north : (x y : ℕ) → Leads (x, y) (still, one) (x, y + 1)
  unfolding step_from index
  north x y i h = ground arith

  north_east : (x y : ℕ) → Leads (x, y) (one, one) (x + 1, y + 1)
  unfolding step_from index
  north_east x y i h = ground arith

  east : (x y : ℕ) → Leads (x, y) (one, still) (x + 1, y)
  unfolding step_from index
  east x y i h = ground arith

  south_east : (x y : ℕ) → Leads (x, y) (one, minus_one) (x + 1, y - 1)
  unfolding step_from index
  south_east x y i h = ground arith

  south : (x y : ℕ) → Leads (x, y) (still, minus_one) (x, y - 1)
  unfolding step_from index
  south x y i h = ground arith

  south_west : (x y : ℕ) → Leads (x, y) (minus_one, minus_one) (x - 1, y - 1)
  unfolding step_from index
  south_west x y i h = ground arith

  west : (x y : ℕ) → Leads (x, y) (minus_one, still) (x - 1, y)
  unfolding step_from index
  west x y i h = ground arith

  north_west : (x y : ℕ) → Leads (x, y) (minus_one, one) (x - 1, y + 1)
  unfolding step_from index
  north_west x y i h = ground arith

  -- What the two tests of the loop let through is a move.
  pub step_from-Move :
      (p : Pos) (d : ℤ × ℤ) (i : ℕ)
      → d ∈ action_directions
      → step_from blocked cols rows p.0 p.1 d ≡ some i
      → (q : Pos) × Move p q × (i ≡ index q)
  step_from-Move (x, y) d i m h = elim m [
    | inl e ↦ let (mv, same) = north x y i (rw e at h) in (_, mv, same)
    | inr (inl e) ↦ let (mv, same) = north_east x y i (rw e at h) in (_, mv, same)
    | inr (inr (inl e)) ↦ let (mv, same) = east x y i (rw e at h) in (_, mv, same)
    | inr (inr (inr (inl e))) ↦ let (mv, same) = south_east x y i (rw e at h) in (_, mv, same)
    | inr (inr (inr (inr (inl e)))) ↦ let (mv, same) = south x y i (rw e at h) in (_, mv, same)
    | inr (inr (inr (inr (inr (inl e))))) ↦
        let (mv, same) = south_west x y i (rw e at h) in (_, mv, same)
    | inr (inr (inr (inr (inr (inr (inl e)))))) ↦
        let (mv, same) = west x y i (rw e at h) in (_, mv, same)
    | inr (inr (inr (inr (inr (inr (inr (inl e))))))) ↦
        let (mv, same) = north_west x y i (rw e at h) in (_, mv, same)
    | inr (inr (inr (inr (inr (inr (inr (inr none))))))) ↦ absurd none
  ]

  -- Every move is tried.
  pub Move-step_from :
      (p q : Pos)
      → Free p
      → Move p q
      → (d : ℤ × ℤ) × (d ∈ action_directions)
        × (step_from blocked cols rows p.0 p.1 d ≡ some (index q))
  unfolding step_from index
  Move-step_from (x, y) (x', y') f (f', inl (inl e, k)) =
      ((one, still), inr (inr (inl refl)), ground arith)
  Move-step_from (x, y) (x', y') f (f', inl (inr e, k)) =
      ((minus_one, still), inr (inr (inr (inr (inr (inr (inl refl)))))), ground arith)
  Move-step_from (x, y) (x', y') f (f', inr (inl (k, inl e))) =
      ((still, one), inl refl, ground arith)
  Move-step_from (x, y) (x', y') f (f', inr (inl (k, inr e))) =
      ((still, minus_one), inr (inr (inr (inr (inl refl)))), ground arith)
  Move-step_from (x, y) (x', y') f (f', inr (inr (inl a, inl b, c, d))) =
      ((one, one), inr (inl refl), ground arith)
  Move-step_from (x, y) (x', y') f (f', inr (inr (inl a, inr b, c, d))) =
      ((one, minus_one), inr (inr (inr (inl refl))), ground arith)
  Move-step_from (x, y) (x', y') f (f', inr (inr (inr a, inl b, c, d))) =
      ((minus_one, one), inr (inr (inr (inr (inr (inr (inr (inl refl))))))), ground arith)
  Move-step_from (x, y) (x', y') f (f', inr (inr (inr a, inr b, c, d))) =
      ((minus_one, minus_one), inr (inr (inr (inr (inr (inl refl))))), ground arith)

  -- The same, for the cells by their numbers.
  unfoldable pub Edge : ℕ → ℕ → Type 0
  Edge u v = (d : ℤ × ℤ) × (d ∈ action_directions) × (step_target blocked cols rows u d ≡ some v)
