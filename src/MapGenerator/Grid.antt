-- ===== src/MapGenerator/Grid.antt =====
-- The two-dimensional lists of `generate_maze.py` (`visited`, `blocked`): rows of Booleans, read
-- and written as `grid[y][x]`. The lemmas that use a write show its index in range.
use maze_client.Prelude.{
  ℕ, zero, suc, ◌<◌, ◌≡◌, ◌≢◌, ◌⊎◌, inl, inr, refl, ◌∙◌, arith, Bool, false, List, [], ◌∷◌, length,
  get_or, set, replicate, length-set, length-replicate, get_or-set_self, get_or-set_ne, ℕ_discrete,
}

abbrev pub Grid : Type 0
Grid = List (List Bool)

abbrev pub Pos : Type 0
Pos = ℕ × ℕ

-- `[[v] * w for _ in range(h)]`
unfoldable pub filled : ℕ → ℕ → Bool → Grid
filled w h v = replicate h (replicate w v)

-- `g[y][x]`, on the grid. Off it the code raises an IndexError, and the model reads an open cell.
unfoldable pub cell : Grid → ℕ → ℕ → Bool
cell g x y = get_or (get_or g y []) x false

-- `g[y][x] = v`
unfoldable pub set_cell : Grid → ℕ → ℕ → Bool → Grid
set_cell g x y v = set g y (set (get_or g y []) x v)

-- Every row has length `w`.
abbrev pub AllWide : ℕ → Grid → Type 0
AllWide w [] = Unit {0}
AllWide w (r ∷ rs) = (length r ≡ w) × AllWide w rs

pub record Sized (w h : ℕ) (g : Grid) : Type 0 where
  pub rows : length g ≡ h
  pub wide : AllWide w g

AllWide-replicate : (w h : ℕ) (r : List Bool) → length r ≡ w → AllWide w (replicate h r)
AllWide-replicate w zero r e = tt
AllWide-replicate w (suc h) r e = (e, AllWide-replicate w h r e)

AllWide-set :
    (w : ℕ) (g : Grid) (y : ℕ) (r : List Bool) → length r ≡ w → AllWide w g → AllWide w (set g y r)
AllWide-set w [] y r e a = tt
AllWide-set w (s ∷ g) zero r e a = (e, a.1)
AllWide-set w (s ∷ g) (suc y) r e a = (a.0, AllWide-set w g y r e a.1)

length-row : (w : ℕ) (g : Grid) (y : ℕ) → AllWide w g → y < length g → length (get_or g y []) ≡ w
length-row w [] y a h = absurd (omega arith)
length-row w (r ∷ g) zero a h = a.0
length-row w (r ∷ g) (suc y) a h = length-row w g y a.1 (omega arith)

pub Sized-filled : (w h : ℕ) (v : Bool) → Sized w h (filled w h v)
unfolding filled
Sized-filled w h v = record {
  rows = length-replicate h (replicate w v);
  wide = AllWide-replicate w h (replicate w v) (length-replicate w v);
}

get_or-replicate_lt {ℓ} : {A : Type ℓ} (n i : ℕ) (a d : A) → i < n → get_or (replicate n a) i d ≡ a
get_or-replicate_lt zero i a d h = absurd (omega arith)
get_or-replicate_lt (suc n) zero a d h = refl
get_or-replicate_lt (suc n) (suc i) a d h = get_or-replicate_lt n i a d (omega arith)

pub cell-filled : (w h x y : ℕ) (v : Bool) → x < w → y < h → cell (filled w h v) x y ≡ v
unfolding cell filled
cell-filled w h x y v hx hy =
    rw (get_or-replicate_lt h y (replicate w v) [] hy) (get_or-replicate_lt w x v false hx)

module _ {w h : ℕ} {g : Grid} (s : Sized w h g) (x y : ℕ) (v : Bool) (hx : x < w) (hy : y < h) where
  open s use {rows, wide}

  row : length (get_or g y []) ≡ w
  row = length-row w g y wide (omega arith)

  pub Sized-set_cell : Sized w h (set_cell g x y v)
  unfolding set_cell
  Sized-set_cell = record {
    rows = length-set g y _ ∙ rows;
    wide = AllWide-set w g y _ (length-set _ x v ∙ row) wide;
  }

  pub cell-set_cell_self : cell (set_cell g x y v) x y ≡ v
  unfolding cell set_cell
  cell-set_cell_self =
      rw (get_or-set_self g y _ [] (omega arith))
        (get_or-set_self (get_or g y []) x v false (omega (arith, row)))

  pub cell-set_cell_ne :
      (x' y' : ℕ) → (x ≢ x') ⊎ (y ≢ y') → cell (set_cell g x y v) x' y' ≡ cell g x' y'
  unfolding cell set_cell
  cell-set_cell_ne x' y' (inr ne) = rw (get_or-set_ne g y y' _ [] ne) refl
  cell-set_cell_ne x' y' (inl ne) = elim (ℕ_discrete y y') [
    | yes e ↦ rw (← e) (
        rw (get_or-set_self g y _ [] (omega arith)) (get_or-set_ne (get_or g y []) x x' v false ne))
    | no ne' ↦ rw (get_or-set_ne g y y' _ [] ne') refl
  ]

AllWide-set_cell :
    (w : ℕ) (g : Grid) (x y : ℕ) (v : Bool)
    → AllWide w g
    → AllWide w (set g y (set (get_or g y []) x v))
AllWide-set_cell w [] x y v a = tt
AllWide-set_cell w (r ∷ g) x zero v a = (length-set r x v ∙ a.0, a.1)
AllWide-set_cell w (r ∷ g) x (suc y) v a = (a.0, AllWide-set_cell w g x y v a.1)

-- A write keeps the size, wherever it is.
pub Sized-write :
    {w h : ℕ} {g : Grid} → Sized w h g → (x y : ℕ) (v : Bool) → Sized w h (set_cell g x y v)
unfolding set_cell
Sized-write {w} {h} {g} s x y v = record {
  rows = length-set g y _ ∙ s.rows;
  wide = AllWide-set_cell w g x y v s.wide;
}
