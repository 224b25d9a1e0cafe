-- ===== src/MapGenerator/Maze/Neighbors.antt =====
-- The list of unvisited neighbours, and what one of its members is.
use maze_client.Prelude.{
  ℕ, zero, suc, ◌<◌, ◌≡◌, ◌⊎◌, inl, inr, refl, false, Option, none, some, List, [], ◌∷◌, length,
  get_or, ◌∈◌, arith, mem-concat, ◌↔◌,
}
use maze_client.Prelude.Int.{ℤ, pos, negsuc, ◌+ℤ◌}
use maze_client.MapGenerator.Grid.{Grid, Pos, cell}
use maze_client.MapGenerator.Random.{Rng, choice}
use maze_client.MapGenerator.Maze.{unvisited_at, append_some, unvisited_neighbors}
use maze_client.MapGenerator.Maze.Rooms.{Adjacent, Inside}

mem-append_some :
    (ps : List Pos) (o : Option Pos) (q : Pos) → (q ∈ append_some ps o) ↔ ((q ∈ ps) ⊎ (o ≡ some q))
mem-append_some ps none q = (inl, λ h. ground arith)
mem-append_some ps (some p) q = ground (arith, mem-concat ps p q)

mem-offers :
    (o₁ o₂ o₃ o₄ : Option Pos) (q : Pos)
    → (q ∈ append_some (append_some (append_some (append_some [] o₁) o₂) o₃) o₄)
      ↔ ((o₁ ≡ some q) ⊎ ((o₂ ≡ some q) ⊎ ((o₃ ≡ some q) ⊎ (o₄ ≡ some q))))
mem-offers o₁ o₂ o₃ o₄ q = (
  λ m. elim ((mem-append_some (append_some (append_some (append_some [] o₁) o₂) o₃) o₄ q).0 m) [
    | inr e ↦ inr (inr (inr e))
    | inl m ↦ elim ((mem-append_some (append_some (append_some [] o₁) o₂) o₃ q).0 m) [
      | inr e ↦ inr (inr (inl e))
      | inl m ↦ elim ((mem-append_some (append_some [] o₁) o₂ q).0 m) [
        | inr e ↦ inr (inl e)
        | inl m ↦ elim ((mem-append_some [] o₁ q).0 m) [ inr e ↦ inl e | inl none_ ↦ absurd none_ ]
      ]
    ]
  ],
  λ h. (mem-append_some (append_some (append_some (append_some [] o₁) o₂) o₃) o₄ q).1 (elim h [
    | inr (inr (inr e)) ↦ inr e
    | inr (inr (inl e)) ↦
        inl ((mem-append_some (append_some (append_some [] o₁) o₂) o₃ q).1 (inr e))
    | inr (inl e) ↦ inl (
        (mem-append_some (append_some (append_some [] o₁) o₂) o₃ q).1
          (inl ((mem-append_some (append_some [] o₁) o₂ q).1 (inr e))))
    | inl e ↦ inl (
        (mem-append_some (append_some (append_some [] o₁) o₂) o₃ q).1 (
          inl (
            (mem-append_some (append_some [] o₁) o₂ q).1
              (inl ((mem-append_some [] o₁ q).1 (inr e))))))
  ]),
)

module _ (n : ℕ) (visited : Grid) where
  abbrev pub Open : Pos → Type 0
  Open (x, y) = Inside n (x, y) × (cell visited x y ≡ false)

  -- The offer of one direction.
  abbrev offer : Pos → ℤ → ℤ → Option Pos
  offer (x, y) dx dy = unvisited_at n visited (pos x +ℤ dx) (pos y +ℤ dy)

  abbrev Offers : Pos → Pos → Type 0
  Offers c q =
      (offer c (pos 1) (pos 0) ≡ some q)
      ⊎ ((offer c (pos 0) (pos 1) ≡ some q)
          ⊎ ((offer c (negsuc 0) (pos 0) ≡ some q) ⊎ (offer c (pos 0) (negsuc 0) ≡ some q)))

  mem-Offers : (c q : Pos) → (q ∈ unvisited_neighbors n visited c) ↔ Offers c q
  unfolding unvisited_neighbors
  mem-Offers (x, y) q =
      mem-offers (offer (x, y) (pos 1) (pos 0)) (offer (x, y) (pos 0) (pos 1))
        (offer (x, y) (negsuc 0) (pos 0)) (offer (x, y) (pos 0) (negsuc 0)) q

  Offers-Open : (c q : Pos) → Offers c q → Adjacent c q × Open q
  unfolding unvisited_at
  Offers-Open (x, y) (a, b) (inl e) = ground arith
  Offers-Open (x, y) (a, b) (inr (inl e)) = ground arith
  Offers-Open (x, y) (a, b) (inr (inr (inl e))) = ground arith
  Offers-Open (x, y) (a, b) (inr (inr (inr e))) = ground arith

  Open-Offers : (c q : Pos) → Adjacent c q → Open q → Offers c q
  unfolding unvisited_at
  Open-Offers (x, y) (a, b) (inl (inl e, k)) o = inl (ground arith)
  Open-Offers (x, y) (a, b) (inr (k, inl e)) o = inr (inl (ground arith))
  Open-Offers (x, y) (a, b) (inl (inr e, k)) o = inr (inr (inl (ground arith)))
  Open-Offers (x, y) (a, b) (inr (k, inr e)) o = inr (inr (inr (ground arith)))

  pub neighbor-Open : (c q : Pos) → q ∈ unvisited_neighbors n visited c → Adjacent c q × Open q
  neighbor-Open c q m = Offers-Open c q ((mem-Offers c q).0 m)

  pub Open-neighbor : (c q : Pos) → Adjacent c q → Open q → q ∈ unvisited_neighbors n visited c
  Open-neighbor c q a o = (mem-Offers c q).1 (Open-Offers c q a o)

get_or-mem : {A : Type 0} (x : A) (xs : List A) (i : ℕ) → i < length xs → get_or xs i x ∈ xs
get_or-mem x [] i h = absurd (omega arith)
get_or-mem x (y ∷ xs) zero h = inl refl
get_or-mem x (y ∷ xs) (suc i) h = inr (get_or-mem x xs i (omega arith))

-- `choice` picks a member.
pub choice-mem : (r : Rng) (x : Pos) (xs : List Pos) (s : r.State) → (choice r x xs s).0 ∈ (x ∷ xs)
unfolding choice
choice-mem r x xs s =
    get_or-mem x (x ∷ xs) (r.below (length (x ∷ xs)) s).0
      (r.below_lt (length (x ∷ xs)) s (omega arith))
