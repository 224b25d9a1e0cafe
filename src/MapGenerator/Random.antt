-- ===== src/MapGenerator/Random.antt =====
-- What the generator uses of Python's `random`, of floats and of the clock: parameters of the
-- model, with the documented behaviour that the theorems rely on.
use maze_client.Prelude.{ℕ, ◌+◌, ◌/◌, ◌<◌, Bool, false, List, [], ◌∷◌, length, get_or, map, ◌==◌}
use maze_client.Prelude.Int.{ℤ, pos, to_ℕ}

pub record Rng : Type 1 where
  pub State : Type 0
  -- A finite float, such as a density or a ratio.
  pub Real : Type 0
  -- `random.Random(seed)`
  pub seeded : ℤ → State
  -- The index that `choice` picks of `n` items, and the number that `randint(0, n - 1)` returns.
  pub below : ℕ → State → ℕ × State
  pub below_lt : (n : ℕ) (s : State) → 0 < n → (below n s).0 < n
  -- `random() < density`
  pub chance : Real → State → Bool × State
  -- The indices that `sample` picks: `k` of `n`.
  pub sample_indices : ℕ → ℕ → State → List ℕ × State
  -- `d <= 0` and `d > 0`
  pub le_zero : Real → Bool
  pub gt_zero : Real → Bool
  -- `int(n * ratio)`
  pub scaled : ℕ → Real → ℤ
  -- With the cell size `map_size / out_dim`: `int(x / cell_size)`, for a `map_size` other than 0,
  -- `round((g + 0.5) * cell_size, 2)` and `round(cell_size, 2)`.
  pub grid_cell : ℤ → ℕ → Real → ℤ
  pub centre : ℤ → ℕ → ℕ → Real
  pub cell_size : ℤ → ℕ → Real

module _ (r : Rng) where
  open r use {State, below, sample_indices}

  -- `rng.choice(x, *xs)`
  unfoldable pub choice : {A : Type 0} → A → List A → State → A × State
  choice x xs s = let (i, s') = below (length (x ∷ xs)) s in (get_or (x ∷ xs) i x, s')

  -- `rng.sample(xs, k)`: the items at the indices, in their order.
  unfoldable pub sample : {A : Type 0} → A → List A → ℕ → State → List A × State
  sample x xs k s =
      let (is, s') = sample_indices (length (x ∷ xs)) k s in (map (λ i. get_or (x ∷ xs) i x) is, s')

-- A generator that always picks the first item and never places an obstacle.
abbrev pub first_rng : Rng
first_rng = record {
  State = ℕ;
  Real = ℕ;
  seeded = λ seed. 0;
  below = λ n s. (0, s + 1);
  below_lt = λ n s h. h;
  chance = λ d s. (false, s + 1);
  sample_indices = λ n k s. ([], s);
  le_zero = λ d. d == 0;
  gt_zero = λ d. false;
  scaled = λ n d. pos 0;
  grid_cell = λ map_size out_dim x. pos 0;
  centre = λ map_size out_dim g. g;
  cell_size = λ map_size out_dim. to_ℕ map_size / out_dim;
}
