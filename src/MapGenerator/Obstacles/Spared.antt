-- ===== src/MapGenerator/Obstacles/Spared.antt =====
-- The cells that no obstacle is placed on.
use maze_client.Prelude.{
  List, [], ◌∷◌, get_or, set, get_or-set_ne, zero, ℕ, suc, ◌+◌, ◌-◌, ◌*◌, ◌≤◌, ◌<◌, ◌≡◌, ◌≢◌, ◌⊎◌,
  inl, inr, refl, sym, ◌∙◌, Bool, true, false, leb, if◌then◌else◌, Bool-cases, arith, ℕ_discrete,
}
use maze_client.Prelude.Loop.{for_range_between, for_range_inv}
use maze_client.MapGenerator.Grid.{Grid, cell, set_cell}
use maze_client.MapGenerator.Obstacles.{Placed, place, fill_room, is_safe, add_room_obstacles}
use maze_client.MapGenerator.Random.{Rng}

get_or-set_either {ℓ} :
    {A : Type ℓ} (g : List A) (y : ℕ) (row d : A)
    → (get_or (set g y row) y d ≡ row) ⊎ (get_or (set g y row) y d ≡ get_or g y d)
get_or-set_either [] y row d = inr refl
get_or-set_either (a ∷ g) zero row d = inl refl
get_or-set_either (a ∷ g) (suc y) row d = get_or-set_either g y row d

-- A write elsewhere, also one that is out of range.
cell-set_cell_apart :
    (g : Grid) (x y x' y' : ℕ) (v : Bool)
    → (x' ≢ x) ⊎ (y' ≢ y)
    → cell (set_cell g x' y' v) x y ≡ cell g x y
unfolding cell set_cell
cell-set_cell_apart g x y x' y' v (inr ne) = rw (get_or-set_ne g y' y _ [] ne) refl
cell-set_cell_apart g x y x' y' v (inl ne) = elim (ℕ_discrete y' y) [
  | no ne' ↦ rw (get_or-set_ne g y' y _ [] ne') refl
  | yes e ↦ rw (← e) (elim (get_or-set_either g y' (set (get_or g y' []) x' v) []) [
    | inl new ↦ rw new (get_or-set_ne (get_or g y' []) x' x v false ne)
    | inr old ↦ rw old refl
  ])
]

place-keeps :
    (r : Rng) (density : r.Real) (x y x' y' : ℕ) (s : Placed r)
    → (x' ≢ x) ⊎ (y' ≢ y)
    → cell (place r density x' y' s).0 x y ≡ cell s.0 x y
unfolding place
place-keeps r density x y x' y' (blocked, rng) apart = elim (Bool-cases (r.chance density rng).0) [
  | inl hit ↦ rw hit (cell-set_cell_apart blocked x y x' y' true apart)
  | inr miss ↦ rw miss refl
]

module _ (r : Rng) (k : ℕ) (large : 3 ≤ k) (density : r.Real) (x y : ℕ) where
  -- A cell inside the room (rx, ry), off its edge.
  abbrev pub Inner : ℕ → ℕ → Type 0
  Inner rx ry =
      (dx : ℕ) × (dy : ℕ) × (1 ≤ dx)
      × (dx < k - 1)
      × (1 ≤ dy)
      × (dy < k - 1)
      × (x ≡ rx * (k + 1) + 1 + dx)
      × (y ≡ ry * (k + 1) + 1 + dy)

  apart :
      (rx ry dx dy : ℕ)
      → 1 ≤ dx
      → dx < k - 1
      → 1 ≤ dy
      → dy < k - 1
      → ¬ Inner rx ry
      → (rx * (k + 1) + 1 + dx ≢ x) ⊎ (ry * (k + 1) + 1 + dy ≢ y)
  apart rx ry dx dy lx ux ly uy off = elim (ℕ_discrete (rx * (k + 1) + 1 + dx) x) [
    | no ne ↦ inl ne
    | yes e ↦ inr λ e'. off (dx, dy, lx, ux, ly, uy, sym e, sym e')
  ]

  fill_room-keeps :
      (rx ry : ℕ) (v : Bool) (s : Placed r)
      → ¬ Inner rx ry
      → cell s.0 x y ≡ v
      → cell (fill_room r k density ry rx s).0 x y ≡ v
  unfolding fill_room
  fill_room-keeps rx ry v s off h =
      let e : leb 3 k ≡ true = ground arith in
      rw (fill_room, e)
        (for_range_between (λ (t : Placed r). cell t.0 x y ≡ v) _ 1 (k - 1)
          (λ dy t lo hi ht.
            for_range_between (λ (t : Placed r). cell t.0 x y ≡ v) _ 1 (k - 1)
              (λ dx u lo' hi' hu.
                place-keeps r density x y (rx * (k + 1) + 1 + dx) (ry * (k + 1) + 1 + dy) u
                  (apart rx ry dx dy lo' hi' lo hi off)
                ∙ hu)
              t ht)
          s h)

  module _ (grid_dim sx sy ex ey safe : ℕ) where
    -- No obstacle comes to the cell: it is not off the edge of a room that may have obstacles.
    abbrev pub IsSpared : Type 0
    IsSpared =
        (rx ry : ℕ) → is_safe r grid_dim k density sx sy ex ey safe ry rx ≡ false → ¬ Inner rx ry

    room-keeps :
        (rx ry : ℕ) (v : Bool) (s : Placed r)
        → IsSpared
        → cell s.0 x y ≡ v
        → cell
            (if is_safe r grid_dim k density sx sy ex ey safe ry rx
              then s
              else fill_room r k density ry rx s).0
            x
            y
          ≡ v
    room-keeps rx ry v s spared h =
        elim (Bool-cases (is_safe r grid_dim k density sx sy ex ey safe ry rx)) [
          | inl safe_room ↦ rw safe_room h
          | inr other ↦ rw other (fill_room-keeps rx ry v s (spared rx ry other) h)
        ]

    -- A spared cell is as it was.
    pub add_room_obstacles-keeps :
        (v : Bool) (s : Placed r)
        → IsSpared
        → cell s.0 x y ≡ v
        → cell (add_room_obstacles r grid_dim k density sx sy ex ey safe s).0 x y ≡ v
    unfolding add_room_obstacles
    add_room_obstacles-keeps v s spared h = elim (Bool-cases (r.le_zero density)) [
      | inl none_asked ↦ rw none_asked h
      | inr asked ↦ rw asked (
          for_range_inv (λ (t : Placed r). cell t.0 x y ≡ v) _
            (λ ry t ht.
              for_range_inv (λ (t : Placed r). cell t.0 x y ≡ v) _
                (λ rx u hu. room-keeps rx ry v u spared hu) 0 grid_dim t ht)
            0 grid_dim s h)
    ]
