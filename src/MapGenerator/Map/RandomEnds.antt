-- ===== src/MapGenerator/Map/RandomEnds.antt =====
-- Maps with random end rooms (`generate_random_start_end`).
use maze_client.Prelude.{
  ℕ, zero, suc, ◌+◌, ◌*◌, ◌-◌, ◌<◌, ◌≡◌, ◌⊎◌, inl, inr, refl, true, leb, Bool-cases, Option, none,
  some, arith, ℕ_discrete,
}
use maze_client.Prelude.Int.{ℤ, pos}
use mathlib.Core.Path.{subst}
use maze_client.MapGenerator.Grid.{Pos}
use maze_client.MapGenerator.Walls.{WallEdgeSet}
use maze_client.MapGenerator.Maze.{extra_open_walls}
use maze_client.MapGenerator.Maze.Rooms.{Inside, Linked, Linked-Opens, extra_open_walls-Opens}
use maze_client.MapGenerator.Maze.Connected.{generate_maze_edges-Joined}
use maze_client.MapGenerator.Random.{Rng}
use maze_client.MapGenerator.Ends.{
  Mode, Options, Ends, random, far_enough, random_ends, generate_random_start_end, choose_ends,
}
use maze_client.MapGenerator.Map.{Generated, no_ends, rooms_of, finish_map, generate_map}
use maze_client.MapGenerator.Map.Passable.{IsPassable}
use maze_client.MapGenerator.Map.Solvable.{
  Solved, AreInside, AreApart, finish_map-Solved, rooms-two,
}

module _ (r : Rng) (o : Options r) where
  abbrev FarEnds : ℕ → ℤ → Option Ends → Type 0
  FarEnds n least result =
      (result ≡ none)
      ⊎ (e : Ends) × (result ≡ some e) × AreInside r o n e × (far_enough least e ≡ true)

  random_ends-FarEnds :
      (left n : ℕ) (least : ℤ) (rng : r.State)
      → 0 < n
      → FarEnds n least (random_ends r left n least rng).0
  unfolding random_ends
  random_ends-FarEnds zero n least rng some_room = inl refl
  random_ends-FarEnds (suc left) n least rng some_room =
      let (sx, rng₁) = r.below n rng in
      let (sy, rng₂) = r.below n rng₁ in
      let (ex, rng₃) = r.below n rng₂ in
      let (ey, rng₄) = r.below n rng₃ in
      let ends : Ends = record { start_rx = sx; start_ry = sy; end_rx = ex; end_ry = ey } in
      let again = random_ends-FarEnds left n least rng₄ some_room in
      elim (Bool-cases (far_enough least ends)) [
        | inl far ↦ rw far (
            inr (
              ends,
              refl,
              (
                (r.below_lt n rng some_room, r.below_lt n rng₁ some_room),
                (r.below_lt n rng₂ some_room, r.below_lt n rng₃ some_room),
              ),
              far,
            ))
        | inr near ↦ rw near again
      ]

  far_enough-AreApart : (m : ℕ) (e : Ends) → far_enough (pos (suc m)) e ≡ true → AreApart r o e
  unfolding far_enough
  far_enough-AreApart m e far = elim (ℕ_discrete e.start_rx e.end_rx) [
    | no ne ↦ inl ne
    | yes same ↦ inr (λ same'.
        too_near
          (rw (no_distance e.start_rx e.end_rx same, no_distance e.start_ry e.end_ry same') at far))
  ]
    where
      no_distance : (a b : ℕ) → a ≡ b → (a - b) + (b - a) ≡ 0
      no_distance a b h = omega arith

      square_positive : 0 < suc m * suc m
      square_positive = grind arith

      too_near : leb (suc m * suc m) (0 * 0 + 0 * 0) ≡ true → ⊥
      too_near h = ground (arith, square_positive)

  generate_random_start_end-FarEnds :
      (n : ℕ) (least : ℤ) (rng : r.State)
      → 0 < n
      → FarEnds n least (generate_random_start_end r n least rng).0
  unfolding generate_random_start_end
  generate_random_start_end-FarEnds = random_ends-FarEnds 500

  choose_ends-random :
      (mode : Mode) (n out : ℕ) (rng : r.State)
      → mode ≡ random
      → choose_ends r o mode n out rng ≡ some (generate_random_start_end r n o.min_distance rng)
  unfolding choose_ends
  choose_ends-random mode n out rng e = rw e refl

  choose_ends-FarEnds :
      (m n out : ℕ) (rng : r.State)
      → o.start_end_mode ≡ random
      → o.min_distance ≡ pos (suc m)
      → 0 < n
      → (ends : Option Ends × r.State) × (choose_ends r o o.start_end_mode n out rng ≡ some ends)
        × FarEnds n (pos (suc m)) ends.0
  choose_ends-FarEnds m n out rng mode least some_room = (
    generate_random_start_end r n o.min_distance rng,
    choose_ends-random o.start_end_mode n out rng mode,
    subst (λ z. FarEnds n z (generate_random_start_end r n o.min_distance rng).0) least
        (generate_random_start_end-FarEnds n o.min_distance rng some_room),
  )

  -- The result without ends, or a map of `map_of` that can be solved.
  abbrev pub SolvedIfEnds : Option (Generated r) → Type 0
  SolvedIfEnds result = ((s : WallEdgeSet) × (result ≡ some (no_ends s))) ⊎ Solved r o result

  finish_map-SolvedIfEnds :
      (m : ℕ) (seed : ℤ) (n : ℕ) (s : WallEdgeSet) (ends : Option Ends × r.State)
      → IsPassable r o
      → 0 < o.room_size
      → FarEnds n (pos (suc m)) ends.0
      → ((p : Pos) → Inside n p → Linked n s p)
      → SolvedIfEnds (finish_map r seed o n s ends)
  finish_map-SolvedIfEnds m seed n s (ends, rng) passable some_cell (inl none_) linked =
      rw none_ (inl (s, unfold finish_map in refl))
  finish_map-SolvedIfEnds m seed n s (ends, rng) passable some_cell (inr (e, found, inside, far))
        linked =
      rw found (
        inr (
          finish_map-Solved r o seed n s e rng passable some_cell inside
            (far_enough-AreApart m e far) linked))

-- With random end rooms at a distance of at least 1, and rooms of at least one cell, without
-- obstacles or with rooms of at least three cells a side, every seed of every generator gives a map
-- that can be solved, with the length of a shortest path between its ends, or gives no map since no
-- pair of rooms was found that is far enough apart.
pub generate_map-SolvedIfEnds :
    (r : Rng) (o : Options r) (seed : ℤ) (m : ℕ)
    → IsPassable r o
    → 0 < o.room_size
    → o.start_end_mode ≡ random
    → o.min_distance ≡ pos (suc m)
    → SolvedIfEnds r o (generate_map r seed o)
unfolding generate_map
generate_map-SolvedIfEnds r o seed m passable some_cell mode least =
    let n = rooms_of r o in
    let two = rooms-two r o in
    let (s, rng', made, linked) = generate_maze_edges-Joined r n (r.seeded seed) (omega arith) in
    let opened = extra_open_walls-Opens r s o.extra_open_ratio rng' in
    let (ends, chosen, far) =
      choose_ends-FarEnds r o m n (n * (o.room_size + 1) + 1)
        (extra_open_walls r s o.extra_open_ratio rng').1 mode least (omega arith) in
    rw (made, chosen)
      (finish_map-SolvedIfEnds r o m seed n _ ends passable some_cell far
        (λ p ip. Linked-Opens opened (linked p ip)))
