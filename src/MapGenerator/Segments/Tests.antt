-- ===== src/MapGenerator/Segments/Tests.antt =====
-- The segments of a small grid.
use maze_client.Prelude.{ℕ, ◌≡◌, refl, true, false, [], ◌∷◌, ◌∈◌, inl, arith}
use maze_client.MapGenerator.Grid.{Grid, cell}
use maze_client.MapGenerator.Segments.{Segment, blocked_to_wall_segments}
use maze_client.MapGenerator.Segments.Marks.{IsRun}
use maze_client.MapGenerator.Segments.Cover.{vertical, Covers}
use maze_client.MapGenerator.Segments.Runs.{
  blocked_to_wall_segments-IsRun, blocked_to_wall_segments-Covers,
}

-- . # #
-- . # .
-- . . .
abbrev bend : Grid
bend = (false ∷ false ∷ false ∷ []) ∷ (false ∷ true ∷ false ∷ []) ∷ (false ∷ true ∷ true ∷ []) ∷ []

abbrev first_wall : Segment ℕ
first_wall = record { x1 = 1; y1 = 1; x2 = 1; y2 = 2; thickness = 10 }

-- The blocked row of two cells gives no segment along the row.
bend_segments :
    blocked_to_wall_segments bend 3 (λ g. g) 10
    ≡ first_wall ∷ record { x1 = 2; y1 = 2; x2 = 2; y2 = 2; thickness = 10 } ∷ []
unfolding blocked_to_wall_segments
bend_segments = refl

first_of_two : first_wall ∈ blocked_to_wall_segments bend 3 (λ g. g) 10
unfolding blocked_to_wall_segments
first_of_two = inl refl

on : cell bend 2 2 ≡ true
unfolding cell
on = refl

blocked_to_wall_segments-IsRun_example :
    (x : ℕ) × (a : ℕ) × (b : ℕ) × IsRun bend 3 x a b
    × (first_wall ≡ vertical bend 3 (λ g. g) 10 x a b)
blocked_to_wall_segments-IsRun_example =
    blocked_to_wall_segments-IsRun bend 3 (λ g. g) 10 first_wall first_of_two

blocked_to_wall_segments-Covers_example :
    Covers bend 3 (λ g. g) 10 (blocked_to_wall_segments bend 3 (λ g. g) 10) 2 2
blocked_to_wall_segments-Covers_example =
    blocked_to_wall_segments-Covers bend 3 (λ g. g) 10 2 2 (omega arith) (omega arith) on
