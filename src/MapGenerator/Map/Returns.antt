-- ===== src/MapGenerator/Map/Returns.antt =====
-- `generate_map` returns: no loop runs out of fuel, and the bitmap raises no ValueError.
use maze_client.Prelude.{
  ℕ, zero, suc, ◌+◌, ◌*◌, ◌≡◌, ◌≢◌, ◌⊎◌, inl, inr, refl, false, Option, none, some, arith,
}
use maze_client.Prelude.Int.{ℤ, pos, negsuc, is_zero}
use maze_client.MapGenerator.Grid.{Grid, Sized}
use maze_client.MapGenerator.Walls.{WallEdgeSet}
use maze_client.MapGenerator.Bitmap.Laws.{blocked_bitmap_bytes-IsBitmap}
use maze_client.MapGenerator.Maze.{clear_safe_zone, extra_open_walls}
use maze_client.MapGenerator.Maze.Connected.{generate_maze_edges-Joined}
use maze_client.MapGenerator.Shortest.Correct.{shortest_action_steps-IsShortest}
use maze_client.MapGenerator.Random.{Rng}
use maze_client.MapGenerator.Ends.{
  Mode, fixed, random, diagonal, Options, Ends, map_size_of, choose_ends,
}
use maze_client.MapGenerator.Map.{Generated, no_ends, rooms_of, map_of, finish_map, generate_map}
use maze_client.MapGenerator.Map.Solvable.{rooms-two}
use maze_client.MapGenerator.Map.Final.{out_of, start_cell, goal_cell, blocked_grid-Sized}

module _ (r : Rng) (o : Options r) where
  abbrev Returns {ℓ} : {A : Type ℓ} → Option A → Type ℓ
  Returns {A = A} m = (a : A) × (m ≡ some a)

  map_of-Returns :
      (seed : ℤ) (n : ℕ) (e : Ends) (s : WallEdgeSet) (g : Grid)
      → Sized (out_of r o n) (out_of r o n) g
      → Returns (map_of r seed o n e s g)
  unfolding map_of
  map_of-Returns seed n e s g sized =
      let (bytes, encoded, _, _) =
        (blocked_bitmap_bytes-IsBitmap g (out_of r o n) (out_of r o n)).0 sized in
      elim (shortest_action_steps-IsShortest g (out_of r o n) (out_of r o n) (start_cell r o e)
        (goal_cell r o e) sized) [
          | inl (d, found, _, _) ↦ rw (found, encoded) (_, refl)
          | inr (found, _) ↦ rw (found, encoded) (_, refl)
        ]

  finish_map-Returns :
      (seed : ℤ) (n : ℕ) (s : WallEdgeSet) (ends : Option Ends × r.State)
      → Returns (finish_map r seed o n s ends)
  unfolding finish_map
  finish_map-Returns seed n s (none, rng) = (no_ends s, refl)
  finish_map-Returns seed n s (some e, rng) = map_of-Returns seed n e _ _ (
      blocked_grid-Sized r o n e
        (clear_safe_zone (clear_safe_zone s n e.start_rx e.start_ry 1) n e.end_rx e.end_ry 1) rng)

  -- The map has a size, or the ends are not given by coordinates on it.
  abbrev pub HasEnds : Type 0
  HasEnds = (o.start_end_mode ≢ fixed) ⊎ (map_size_of r o ≢ pos 0)

  is_zero-false : (z : ℤ) → z ≢ pos 0 → is_zero z ≡ false
  is_zero-false (pos zero) h = absurd (h refl)
  is_zero-false (pos (suc n)) h = refl
  is_zero-false (negsuc n) h = refl

  choose_ends-Returns :
      (mode : Mode) (n out : ℕ) (rng : r.State)
      → (mode ≢ fixed) ⊎ (map_size_of r o ≢ pos 0)
      → Returns (choose_ends r o mode n out rng)
  unfolding choose_ends
  choose_ends-Returns fixed n out rng (inl other) = absurd (other refl)
  choose_ends-Returns fixed n out rng (inr size) =
      rw (is_zero-false (map_size_of r o) size) (_, refl)
  choose_ends-Returns random n out rng h = (_, refl)
  choose_ends-Returns diagonal n out rng h = (_, refl)

  choose_ends-none :
      (mode : Mode) (n out : ℕ) (rng : r.State)
      → mode ≡ fixed
      → map_size_of r o ≡ pos 0
      → choose_ends r o mode n out rng ≡ none
  unfolding choose_ends
  choose_ends-none mode n out rng e size = rw (e, size) refl

-- For every seed and every generator, with obstacles or without, `generate_map` returns, unless the
-- ends are fixed on a map of size 0: its loops end, the grid has the dimensions that the bitmap
-- wants, and the path search answers. Fixed ends on a map of size 0 are an error.
pub generate_map-Returns :
    (r : Rng) (o : Options r) (seed : ℤ)
    → (HasEnds r o → (g : Generated r) × (generate_map r seed o ≡ some g))
      × (o.start_end_mode ≡ fixed → map_size_of r o ≡ pos 0 → generate_map r seed o ≡ none)
unfolding generate_map
generate_map-Returns r o seed =
    let n = rooms_of r o in
    let (s, rng', made, _) =
      generate_maze_edges-Joined r n (r.seeded seed) (omega (arith, rooms-two r o)) in
    (
      λ has_ends.
          let (ends, chosen) =
            choose_ends-Returns r o o.start_end_mode n (n * (o.room_size + 1) + 1)
              (extra_open_walls r s o.extra_open_ratio rng').1 has_ends in
          rw (made, chosen) (finish_map-Returns r o seed n _ ends),
      λ mode size.
          rw
            (
              made,
              choose_ends-none r o o.start_end_mode n (n * (o.room_size + 1) + 1)
                  (extra_open_walls r s o.extra_open_ratio rng').1 mode size,
            )
            refl,
    )
