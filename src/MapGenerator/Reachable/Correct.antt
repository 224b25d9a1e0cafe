-- ===== src/MapGenerator/Reachable/Correct.antt =====
-- `bfs_reachable` returns, with the length of a shortest path between two rooms, or says that there is
-- no path.
use maze_client.Prelude.{
  ℕ, zero, suc, ◌+◌, ◌*◌, ◌==◌, ◌≤◌, ◌<◌, ◌≡◌, ◌≢◌, ◌⊎◌, ◌↔◌, inl, inr, refl, ap, Bool, true, false,
  ltb, ◌&&◌, Bool-cases, Option, some, List, [], ◌∷◌, length, get_or, replicate, arith,
}
use maze_client.Prelude.Int.{ℤ, pos, negsuc}
use maze_client.MapGenerator.Grid.{Grid, Pos, cell, set_cell, filled, Sized-filled, Sized-set_cell}
use maze_client.MapGenerator.Walls.{WallEdgeSet}
use maze_client.MapGenerator.Maze.Rooms.{Inside}
use maze_client.MapGenerator.Maze.Visit.{
  Seen, Seen-set_cell, blanks, blanks-set_cell, blanks-filled,
}
use maze_client.MapGenerator.Reachable.{Waiting, Rooms, rooms_loop, bfs_reachable}
use maze_client.MapGenerator.Reachable.Queue.{
  RoomPath, Arrived, here, step, RoomPath-Inside, Later, Later-mem, Banded-next,
}
use maze_client.MapGenerator.Reachable.Round.{Inv, Nobody, Mid, round-Inv, round-work}

module _ (n : ℕ) (s : WallEdgeSet) (start goal : Pos) (from : Inside n start) where
  abbrev rooms : Grid → List Waiting → Rooms
  rooms visited queue = record { visited = visited; queue = queue }

  abbrev Known : ℕ → Grid → List Waiting → Type 0
  Known k visited queue = Inv n s start goal Nobody k (rooms visited queue)

  -- The level of the queue is done: the rooms of the next level are visited.
  near_next :
      (k : ℕ) (visited : Grid) (queue : List Waiting)
      → Known k visited queue
      → Later k queue
      → {p : Pos} {e : ℕ} → RoomPath n s start p e
      → e ≤ k + 1
      → Seen visited p
  near_next k visited queue i later here le = i.origin
  near_next k visited queue i later (step {p} {q} {d = e} w way) le =
      elim (i.closed p (RoomPath-Inside from w) (i.near p e w (omega arith))) [
        | inl (d, m) ↦
            let level = Later-mem k p d queue later m in
            let (_, _, (_, least)) = i.waits p d m in absurd (omega (arith, least e w))
        | inr (inl none_) ↦ absurd none_
        | inr (inr done) ↦ done q way
      ]

  module _ (k d : ℕ) (c : Pos) (visited : Grid) (queue : List Waiting)
      (i : Known k visited ((c, d) ∷ queue)) where
    near_now : (p : Pos) (e : ℕ) → RoomPath n s start p e → e ≤ d → Seen visited p
    near_now p e w le = elim (Banded-next k c d queue i.band).1 [
      | inl same ↦ i.near p e w (omega arith)
      | inr (same, later) ↦ near_next k visited ((c, d) ∷ queue) i later w (omega arith)
    ]

    pop-Mid :
        (path : RoomPath n s start c d)
        → goal ≢ c
        → Mid n s start goal c d path (rooms visited queue)
    pop-Mid path other = record {
      sized = i.sized;
      origin = i.origin;
      band = (Banded-next k c d queue i.band).0;
      waits = λ p e m. i.waits p e (inr m);
      near = near_now;
      closed = λ p ip seen. elim (i.closed p ip seen) [
        | inl (e, inl same) ↦ inr (inl (ap (λ (w : Waiting). w.0) same))
        | inl (e, inr m) ↦ inl (e, m)
        | inr (inl none_) ↦ absurd none_
        | inr (inr done) ↦ inr (inr done)
      ];
      todo = λ seen.
          let (e, m) = i.todo seen in
          elim m [
            | inl same ↦ absurd (other (ap (λ (w : Waiting). w.0) same))
            | inr later ↦ (e, later)
          ];
    }

  -- With an empty queue every room that has a path is visited.
  all_seen :
      (k : ℕ) (visited : Grid)
      → Known k visited []
      → {p : Pos} {e : ℕ} → RoomPath n s start p e
      → Seen visited p
  all_seen k visited i here = i.origin
  all_seen k visited i (step {p} {q} w way) =
      elim (i.closed p (RoomPath-Inside from w) (all_seen k visited i w)) [
        | inl (d, none_) ↦ absurd none_
        | inr (inl none_) ↦ absurd none_
        | inr (inr done) ↦ done q way
      ]

  -- `true` comes with the length of a shortest path, and `false` means that there is none.
  abbrev pub IsReached : Option (Bool × ℤ) → Type 0
  IsReached r =
      ((d : ℕ) × (r ≡ some (true, pos d)) × Arrived n s start goal d)
      ⊎ (r ≡ some (false, negsuc 0)) × ((e : ℕ) → ¬ RoomPath n s start goal e)

  abbrev same_room : Pos → Pos → Bool
  same_room (cx, cy) (ex, ey) = cx == ex && cy == ey

  is_goal : (c : Pos) → same_room c goal ≡ true → goal ≡ c
  is_goal (x, y) found = ground arith

  not_goal : (c : Pos) → same_room c goal ≡ false → goal ≢ c
  not_goal (x, y) other = ground arith

  pub rooms_loop-IsReached :
      (fuel k : ℕ) (visited : Grid) (queue : List Waiting)
      → Known k visited queue
      → blanks visited + length queue ≤ fuel
      → IsReached (rooms_loop s n fuel goal visited queue)
  unfolding rooms_loop
  rooms_loop-IsReached fuel k visited [] i enough =
      inr (refl, λ e w. let (d, none_) = i.todo (all_seen k visited i w) in none_)
  rooms_loop-IsReached zero k visited (w ∷ queue) i enough = absurd (omega arith)
  rooms_loop-IsReached (suc fuel) k visited ((c, d) ∷ queue) i enough =
      let (inside, seen, (path, least)) = i.waits c d (inl refl) in
      elim (Bool-cases (same_room c goal)) [
        | inl found ↦ rw found (inl (d, refl, rw (is_goal c found) (path, least)))
        | inr other ↦
            let mid = pop-Mid k d c visited queue i path (not_goal c other) in
            rw other (
              rooms_loop-IsReached fuel d _ _
                (round-Inv n s start goal c d path (rooms visited queue) mid)
                (omega (arith, round-work n s start goal c d path (rooms visited queue) mid)))
      ]

row_blank : (w x : ℕ) → get_or (replicate w false) x false ≡ false
row_blank zero x = refl
row_blank (suc w) zero = refl
row_blank (suc w) (suc x) = row_blank w x

filled_blank : (w h x y : ℕ) → cell (filled w h false) x y ≡ false
unfolding cell filled
filled_blank w h x y = rows h y
  where
    rows : (h y : ℕ) → get_or (get_or (replicate h (replicate w false)) y []) x false ≡ false
    rows zero y = refl
    rows (suc h) zero = row_blank w x
    rows (suc h) (suc y) = rows h y

-- The start.
module _ (n : ℕ) (s : WallEdgeSet) (start goal : Pos) (from : Inside n start) where
  abbrev first : Grid
  first = set_cell (filled n n false) start.0 start.1 true

  mark_first : (p : Pos) → Seen first p ↔ (Seen (filled n n false) p ⊎ (p ≡ start))
  mark_first p = Seen-set_cell n (filled n n false) p start (Sized-filled n n false) from

  only_first : (p : Pos) → Seen first p → p ≡ start
  only_first (x, y) seen = elim ((mark_first (x, y)).0 seen) [
    | inl old ↦ cc (filled_blank n n x y, old)
    | inr same ↦ same
  ]

  zero_path : {p : Pos} {e : ℕ} → RoomPath n s start p e → e ≤ 0 → Seen first p
  zero_path here le = (mark_first start).1 (inr refl)
  zero_path (step w way) le = absurd (omega arith)

  first-Inv : Inv n s start goal Nobody 0 (record { visited = first; queue = (start, 0) ∷ [] })
  first-Inv = record {
    sized = Sized-set_cell (Sized-filled n n false) start.0 start.1 true from.0 from.1;
    origin = (mark_first start).1 (inr refl);
    band = inl (refl, tt);
    waits = λ p d. elim [
      | inl same ↦
          rw (ap (λ (w : Waiting). w.0) same, ap (λ (w : Waiting). w.1) same)
            (from, (mark_first start).1 (inr refl), (here, λ e w. omega arith))
      | inr none_ ↦ absurd none_
    ];
    near = λ p e w le. zero_path w le;
    closed = λ p ip seen. inl (0, rw (only_first p seen) (inl refl));
    todo = λ seen. (0, rw (only_first goal seen) (inl refl));
  }

  first-work : blanks first + 1 ≤ n * n
  first-work = omega (
    arith,
    blanks-filled n,
    blanks-set_cell n (filled n n false) start (Sized-filled n n false) from
        (filled_blank n n start.0 start.1),
  )

in_grid : (x y n : ℕ) → x < n → y < n → (ltb x n && ltb y n) ≡ true
in_grid x y n hx hy = ground arith

-- From a start in the grid, for every wall set, size and goal (also one off the grid), the search
-- returns. If it answers true, its number is the number of passages of a path from the start to the
-- goal, through rooms of the grid with no wall between them, and no path has fewer; if it answers
-- false, with -1, there is no such path.
pub bfs_reachable-IsReached :
    (s : WallEdgeSet) (n : ℕ) (start goal : Pos) (from : Inside n start)
    → IsReached n s start goal from (bfs_reachable s n start.0 start.1 goal.0 goal.1)
unfolding bfs_reachable
bfs_reachable-IsReached s n start goal from = rw (in_grid start.0 start.1 n from.0 from.1) (
    rooms_loop-IsReached n s start goal from (n * n) 0 (first n s start goal from) ((start, 0) ∷ [])
      (first-Inv n s start goal from) (first-work n s start goal from))
