-- ===== src/MapGenerator/Maze/Visit.antt =====
-- Marking a room as visited: what it changes in the grid, and how many rooms are left.
use maze_client.Prelude.{
  ℕ, zero, suc, ◌+◌, ◌*◌, ◌<◌, ◌≡◌, ◌⊎◌, inl, inr, refl, Bool, true, false, ◌↔◌, List, [], ◌∷◌,
  length, get_or, set, replicate, arith,
}
use maze_client.MapGenerator.Grid.{Grid, Pos, cell, set_cell, filled, Sized, AllWide}
use maze_client.MapGenerator.Carve.Paint.{Paints-set_cell}
use maze_client.MapGenerator.Maze.Rooms.{Inside}

abbrev pub Seen : Grid → Pos → Type 0
Seen g (x, y) = cell g x y ≡ true

pub Seen-set_cell :
    (n : ℕ) (g : Grid) (p q : Pos)
    → Sized n n g
    → Inside n q
    → Seen (set_cell g q.0 q.1 true) p ↔ (Seen g p ⊎ (p ≡ q))
Seen-set_cell n g (x, y) (a, b) s i =
    let law = (Paints-set_cell n n true a b i.0 i.1).law g s x y in
    (
      λ h. elim (law.0 h) [ inl old ↦ inl old | inr e ↦ inr (ground arith) ],
      λ h. law.1 (elim h [ inl old ↦ inl old | inr e ↦ inr (ground arith) ]),
    )

abbrev blanks_row : List Bool → ℕ
blanks_row [] = 0
blanks_row (true ∷ r) = blanks_row r
blanks_row (false ∷ r) = suc (blanks_row r)

-- The rooms that are not visited.
abbrev pub blanks : Grid → ℕ
blanks [] = 0
blanks (r ∷ g) = blanks_row r + blanks g

blanks_row-set :
    (r : List Bool) (x : ℕ)
    → x < length r
    → get_or r x false ≡ false
    → suc (blanks_row (set r x true)) ≡ blanks_row r
blanks_row-set [] x h e = absurd (omega arith)
blanks_row-set (b ∷ r) zero h e = rw e
blanks_row-set (true ∷ r) (suc x) h e = blanks_row-set r x (omega arith) e
blanks_row-set (false ∷ r) (suc x) h e = omega (arith, blanks_row-set r x (omega arith) e)

blanks-set :
    (w : ℕ) (g : Grid) (x y : ℕ)
    → AllWide w g
    → x < w
    → y < length g
    → get_or (get_or g y []) x false ≡ false
    → suc (blanks (set g y (set (get_or g y []) x true))) ≡ blanks g
blanks-set w [] x y a hx hy e = absurd (omega arith)
blanks-set w (r ∷ g) x zero a hx hy e = omega (arith, blanks_row-set r x (omega (arith, a.0)) e)
blanks-set w (r ∷ g) x (suc y) a hx hy e = omega (arith, blanks-set w g x y a.1 hx (omega arith) e)

pub blanks-set_cell :
    (n : ℕ) (g : Grid) (q : Pos)
    → Sized n n g
    → Inside n q
    → cell g q.0 q.1 ≡ false
    → suc (blanks (set_cell g q.0 q.1 true)) ≡ blanks g
unfolding cell set_cell
blanks-set_cell n g (x, y) s i e = blanks-set n g x y s.wide i.0 (omega (arith, s.rows)) e

blanks_row-replicate : (w : ℕ) → blanks_row (replicate w false) ≡ w
blanks_row-replicate zero = refl
blanks_row-replicate (suc w) = omega (arith, blanks_row-replicate w)

blanks-replicate : (w h : ℕ) → blanks (replicate h (replicate w false)) ≡ h * w
blanks-replicate w zero = omega arith
blanks-replicate w (suc h) = omega (arith, blanks_row-replicate w, blanks-replicate w h)

pub blanks-filled : (n : ℕ) → blanks (filled n n false) ≡ n * n
unfolding filled
blanks-filled n = blanks-replicate n n
