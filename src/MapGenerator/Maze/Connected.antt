-- ===== src/MapGenerator/Maze/Connected.antt =====
-- `generate_maze_edges` returns, and joins every room to the room (0, 0).
use maze_client.Prelude.{
  ℕ, zero, suc, ◌+◌, ◌*◌, ◌≤◌, ◌<◌, ◌≡◌, ◌⊎◌, inl, inr, refl, sym, true, false, Bool-cases, Option,
  some, List, [], ◌∷◌, length, ◌∈◌, ◌↔◌, arith, List-cases, ap,
}
use mathlib.Core.Path.{subst}
use maze_client.MapGenerator.Grid.{
  Pos, cell, set_cell, filled, Sized, Sized-filled, Sized-set_cell, cell-filled,
}
use maze_client.MapGenerator.Walls.{WallEdgeSet, remove_wall}
use maze_client.MapGenerator.Random.{Rng, choice}
use maze_client.MapGenerator.Maze.{
  Dfs, unvisited_neighbors, dfs_step, dfs_loop, dfs_start, generate_maze_edges,
}
use maze_client.MapGenerator.Maze.Rooms.{
  Adjacent, Inside, Linked, Linked-Opens, Opens, origin, step, Opens-remove_wall,
  has_wall-remove_wall,
}
use maze_client.MapGenerator.Maze.Neighbors.{neighbor-Open, Open-neighbor, choice-mem}
use maze_client.MapGenerator.Maze.Visit.{
  Seen, Seen-set_cell, blanks, blanks-set_cell, blanks-filled,
}

module _ (r : Rng) (n : ℕ) where
  record Inv (s : Dfs r) : Type 0 where
    sized : Sized n n s.visited
    start : Seen s.visited (0, 0)
    stacked : (p : Pos) → p ∈ s.stack → Inside n p × Seen s.visited p
    linked : (p : Pos) → Inside n p → Seen s.visited p → Linked n s.edge_set p
    closed :
        (p q : Pos)
        → Inside n p × Seen s.visited p
        → Adjacent p q × Inside n q
        → (p ∈ s.stack) ⊎ Seen s.visited q

  -- Each round pushes a room that becomes visited, or pops one.
  abbrev work : Dfs r → ℕ
  work s = 2 * blanks s.visited + length s.stack

  pop :
      (s : Dfs r) (c : Pos) (rest : List Pos)
      → s.stack ≡ c ∷ rest
      → unvisited_neighbors n s.visited c ≡ []
      → Inv s
      → Inv (record s { stack = rest })
  pop s c rest top empty i = record {
    sized = i.sized;
    start = i.start;
    stacked = λ p m. i.stacked p (rw top (inr m));
    linked = i.linked;
    closed = λ p q hp hq. elim (rw top at (i.closed p q hp hq)) [
      | inl (inl same) ↦ elim (Bool-cases (cell s.visited q.0 q.1)) [
        | inl seen ↦ inr seen
        | inr blank ↦
            absurd (rw empty at (Open-neighbor n s.visited c q (rw same at hq.0) (hq.1, blank)))
      ]
      | inl (inr m) ↦ inl m
      | inr seen ↦ inr seen
    ];
  }

  -- The push of a neighbour `q` of the top `c`.
  abbrev pushed : Dfs r → Pos → Pos → r.State → Dfs r
  pushed s c q rng' = record {
    visited = set_cell s.visited q.0 q.1 true;
    stack = q ∷ s.stack;
    edge_set = remove_wall s.edge_set c.0 c.1 q.0 q.1;
    rng = rng';
  }

  push :
      (s : Dfs r) (c q : Pos) (rng' : r.State)
      → Inv s
      → c ∈ s.stack
      → Adjacent c q
      → Inside n q
      → Inv (pushed s c q rng')
  push s c q rng' i top adj inside = record {
    sized = Sized-set_cell i.sized q.0 q.1 true inside.0 inside.1;
    start = (mark (0, 0)).1 (inl i.start);
    stacked = λ p. elim [
      | inl same ↦ rw same (inside, (mark q).1 (inr refl))
      | inr m ↦ let (ip, seen) = i.stacked p m in (ip, (mark p).1 (inl seen))
    ];
    linked = λ p ip seen. elim ((mark p).0 seen) [
      | inl old ↦ Linked-Opens opened (i.linked p ip old)
      | inr same ↦ rw same (
          step (Linked-Opens opened (i.linked c at_top.0 at_top.1)) adj at_top.0 inside
            (has_wall-remove_wall s.edge_set c.0 c.1 q.0 q.1))
    ];
    closed = λ p q' (ip, seen) hq. elim ((mark p).0 seen) [
      | inl old ↦ elim (i.closed p q' (ip, old) hq) [
        | inl m ↦ inl (inr m)
        | inr seen' ↦ inr ((mark q').1 (inl seen'))
      ]
      | inr same ↦ inl (inl same)
    ];
  }
    where
      mark : (p : Pos) → Seen (set_cell s.visited q.0 q.1 true) p ↔ (Seen s.visited p ⊎ (p ≡ q))
      mark p = Seen-set_cell n s.visited p q i.sized inside

      at_top : Inside n c × Seen s.visited c
      at_top = i.stacked c top

      opened : Opens s.edge_set (remove_wall s.edge_set c.0 c.1 q.0 q.1)
      opened = Opens-remove_wall s.edge_set c.0 c.1 q.0 q.1

  -- What one round does, in the two cases.
  step_pop :
      (s : Dfs r) (c : Pos) (rest : List Pos)
      → unvisited_neighbors n s.visited c ≡ []
      → dfs_step r n s c rest ≡ record s { stack = rest }
  unfolding dfs_step
  step_pop s c rest e = rw (e, dfs_step)

  step_push :
      (s : Dfs r) (c p : Pos) (rest ps : List Pos)
      → unvisited_neighbors n s.visited c ≡ p ∷ ps
      → dfs_step r n s c rest ≡ pushed s c (choice r p ps s.rng).0 (choice r p ps s.rng).1
  unfolding dfs_step
  step_push s c p rest ps e = rw (e, dfs_step)

  record Stepped (s t : Dfs r) : Type 0 where
    inv : Inv t
    fewer : suc (work t) ≤ work s

  dfs_step-Stepped :
      (s : Dfs r) (c : Pos) (rest : List Pos)
      → s.stack ≡ c ∷ rest
      → Inv s
      → Stepped s (dfs_step r n s c rest)
  dfs_step-Stepped s c rest top i = elim (List-cases (unvisited_neighbors n s.visited c)) [
    | inl e ↦
        rw (step_pop s c rest e)
          (record { inv = pop s c rest top e i; fewer = omega (arith, ap length top) })
    | inr (p, ps, e) ↦
        let q = (choice r p ps s.rng).0 in
        let picked = subst (λ l. q ∈ l) (sym e) (choice-mem r p ps s.rng) in
        let (adj, (inside, blank)) = neighbor-Open n s.visited c q picked in
        rw (step_push s c p rest ps e) (record {
          inv = push s c _ _ i (rw top (inl refl)) adj inside;
          fewer = omega (arith, blanks-set_cell n s.visited _ i.sized inside blank);
        })
  ]

  -- The rooms are all visited when the stack is empty.
  module _ (s : Dfs r) (i : Inv s) (empty : s.stack ≡ []) where
    spread :
        (p q : Pos) → Inside n p → Adjacent p q → Inside n q → Seen s.visited p → Seen s.visited q
    spread p q ip adj iq seen = elim (i.closed p q (ip, seen) (adj, iq)) [
      | inl m ↦ absurd (rw empty at m)
      | inr h ↦ h
    ]

    column : (y : ℕ) → 0 < n → y < n → Seen s.visited (0, y)
    column zero h hy = i.start
    column (suc y) h hy =
        spread (0, y) (0, suc y) (h, omega arith) (inr (refl, inl (omega arith))) (h, hy)
          (column y h (omega arith))

    all-Seen : (x y : ℕ) → x < n → y < n → Seen s.visited (x, y)
    all-Seen zero y hx hy = column y (omega arith) hy
    all-Seen (suc x) y hx hy =
        spread (x, y) (suc x, y) (omega arith, hy) (inl (inl (omega arith), refl)) (hx, hy)
          (all-Seen x y (omega arith) hy)

  abbrev Joined : Option (WallEdgeSet × r.State) → Type 0
  Joined o =
      (s : WallEdgeSet) × (rng' : r.State) × (o ≡ some (s, rng'))
      × ((p : Pos) → Inside n p → Linked n s p)

  dfs_loop-Joined :
      (fuel : ℕ) (s : Dfs r) (stack : List Pos)
      → s.stack ≡ stack
      → Inv s
      → work s ≤ fuel
      → Joined (dfs_loop r fuel n s stack)
  unfolding dfs_loop
  dfs_loop-Joined fuel s [] top i f =
      (s.edge_set, s.rng, refl, λ p ip. i.linked p ip (all-Seen s i top p.0 p.1 ip.0 ip.1))
  dfs_loop-Joined zero s (c ∷ rest) top i f = absurd (omega (arith, ap length top))
  dfs_loop-Joined (suc fuel) s (c ∷ rest) top i f =
      let next = dfs_step-Stepped s c rest top i in
      dfs_loop-Joined fuel (dfs_step r n s c rest) _ refl next.inv (omega (arith, next.fewer))

  module _ (rng : r.State) (some_room : 0 < n) where
    mark_first :
        (p : Pos) → Seen (dfs_start r n rng).visited p ↔ (Seen (filled n n false) p ⊎ (p ≡ (0, 0)))
    unfolding dfs_start
    mark_first p =
        Seen-set_cell n (filled n n false) p (0, 0) (Sized-filled n n false) (some_room, some_room)

    only_first : (p : Pos) → Inside n p → Seen (dfs_start r n rng).visited p → p ≡ (0, 0)
    only_first (x, y) ip seen = elim ((mark_first (x, y)).0 seen) [
      | inl old ↦ cc (cell-filled n n x y false ip.0 ip.1)
      | inr same ↦ same
    ]

    Inv-start : Inv (dfs_start r n rng)
    Inv-start = record {
      sized =
          unfold dfs_start in Sized-set_cell (Sized-filled n n false) 0 0 true some_room some_room;
      start = (mark_first (0, 0)).1 (inr refl);
      stacked =
          unfold dfs_start in
          λ p m. elim m [
            | inl same ↦ rw same ((some_room, some_room), (mark_first (0, 0)).1 (inr refl))
            | inr none_ ↦ absurd none_
          ];
      linked = λ p ip seen. rw (only_first p ip seen) origin;
      closed = λ p q (ip, seen) hq. inl (rw (only_first p ip seen) first_stacked);
    }
      where
        first_stacked : (0, 0) ∈ (dfs_start r n rng).stack
        first_stacked = unfold dfs_start in inl refl

    work-start : work (dfs_start r n rng) ≤ 2 * (n * n)
    unfolding dfs_start
    work-start = omega (
      arith,
      blanks-filled n,
      blanks-set_cell n (filled n n false) (0, 0) (Sized-filled n n false) (some_room, some_room)
          (cell-filled n n 0 0 false some_room some_room),
    )

-- For every random generator and every number of rooms from 1, the search returns a wall set in
-- which each room of the grid is joined to the room (0, 0) by rooms with no wall between them.
pub generate_maze_edges-Joined :
    (r : Rng) (n : ℕ) (rng : r.State)
    → 0 < n
    → (s : WallEdgeSet) × (rng' : r.State) × (generate_maze_edges r n rng ≡ some (s, rng'))
      × ((p : Pos) → Inside n p → Linked n s p)
unfolding generate_maze_edges
generate_maze_edges-Joined r n rng h =
    dfs_loop-Joined r n (2 * (n * n)) (dfs_start r n rng) _ refl (Inv-start r n rng h)
      (work-start r n rng h)
