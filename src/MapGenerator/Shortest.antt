-- ===== src/MapGenerator/Shortest.antt =====
-- `shortest_action_steps`: breadth-first search over the nine-action moves on the blocked grid.
pub mod Moves
mod Levels
mod Visit
mod Scan
mod Round
mod Loop
pub mod Correct
use maze_client.Prelude.{
  ℕ, zero, suc, ◌+◌, ◌*◌, ◌/◌, ◌%◌, ltb, ◌==◌, Bool, true, false, ◌&&◌, ◌||◌, not, if◌then◌else◌,
  Option, none, some, List, [], ◌∷◌, ◌++◌, get_or, set, replicate,
}
use maze_client.Prelude.Int.{ℤ, pos, negsuc, ◌+ℤ◌}
use mathlib.Core.List.{foldl}
use maze_client.MapGenerator.Grid.{Grid, cell}

-- -1, 0 and 1, the components of a direction.
abbrev pub minus_one : ℤ
minus_one = negsuc 0

abbrev pub still : ℤ
still = pos 0

abbrev pub one : ℤ
one = pos 1

abbrev pub action_directions : List (ℤ × ℤ)
action_directions =
    (still, one)
    ∷ (one, one)
    ∷ (one, still)
    ∷ (one, minus_one)
    ∷ (still, minus_one)
    ∷ (minus_one, minus_one)
    ∷ (minus_one, still)
    ∷ (minus_one, one)
    ∷ []

-- `dx` as a condition.
abbrev pub nonzero : ℤ → Bool
nonzero (pos zero) = false
nonzero (pos (suc n)) = true
nonzero (negsuc n) = true

-- `d >= 0`
abbrev pub is_set : ℤ → Bool
is_set (pos n) = true
is_set (negsuc n) = false

pub record Search : Type 0 where
  pub distance : List ℤ
  pub queue : List ℕ

module _ (blocked : Grid) (grid_cols grid_rows : ℕ) where
  unfoldable pub walkable : ℤ → ℤ → Bool
  unfolding cell
  walkable (pos gx) (pos gy) = ltb gx grid_cols && ltb gy grid_rows && not (cell blocked gx gy)
  walkable _ _ = false

  -- `ny * grid_cols + nx`, at a walkable cell.
  abbrev cell_index : ℤ → ℤ → ℕ
  cell_index (pos nx) (pos ny) = ny * grid_cols + nx
  cell_index _ _ = 0

  -- The two tests of the loop that come before the distance is read; `none` is `continue`.
  unfoldable pub step_from : ℕ → ℕ → ℤ × ℤ → Option ℕ
  unfolding walkable
  step_from gx gy (dx, dy) =
      let nx = pos gx +ℤ dx in
      let ny = pos gy +ℤ dy in
      if not (walkable nx ny)
      then none
      else if nonzero dx && nonzero dy && (not (walkable nx (pos gy)) || not (walkable (pos gx) ny))
      then none
      else some (cell_index nx ny)

  unfoldable pub step_target : ℕ → ℤ × ℤ → Option ℕ
  unfolding step_from
  step_target current = step_from (current % grid_cols) (current / grid_cols)

  abbrev pub distance_of : List ℤ → ℕ → ℤ
  distance_of distance i = get_or distance i minus_one

  -- The rest of the loop body.
  unfoldable pub visit : ℕ → Search → ℕ → Search
  visit current s next_index = if is_set (distance_of s.distance next_index) then s else record {
    distance = set s.distance next_index (distance_of s.distance current +ℤ one);
    queue = s.queue ++ next_index ∷ [];
  }

  unfoldable pub offer : ℕ → Search → ℤ × ℤ → Search
  unfolding step_target visit
  offer current s d = elim (step_target current d) [ none ↦ s | some i ↦ visit current s i ]

  -- `while queue`, with fuel; `none` means that the fuel ran out.
  unfoldable pub search_loop : ℕ → ℕ → List ℤ → List ℕ → Option ℤ
  unfolding offer
  search_loop fuel goal_index distance [] = some minus_one
  search_loop zero goal_index distance (current ∷ queue) = none
  search_loop (suc fuel) goal_index distance (current ∷ queue) =
      let next =
        foldl (offer current) (record { distance = distance; queue = queue }) action_directions in
      let rest = search_loop fuel goal_index next.distance next.queue in
      if current == goal_index then some (distance_of distance current) else rest

  -- Each cell enters the queue once, so one round for each cell is enough.
  unfoldable pub shortest_action_steps : ℕ → ℕ → ℕ → ℕ → Option ℤ
  unfolding walkable search_loop
  shortest_action_steps start_gx start_gy goal_gx goal_gy =
      let start_index = start_gy * grid_cols + start_gx in
      let goal_index = goal_gy * grid_cols + goal_gx in
      let distance = set (replicate (grid_cols * grid_rows) minus_one) start_index still in
      if not (walkable (pos start_gx) (pos start_gy)) || not (walkable (pos goal_gx) (pos goal_gy))
      then some minus_one
      else search_loop (grid_cols * grid_rows) goal_index distance (start_index ∷ [])
