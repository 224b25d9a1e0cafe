-- ===== src/MapGenerator/Reachable/Round.antt =====
-- One round of the search over the rooms: what entering a room, and then trying the four directions,
-- keep true.
use maze_client.Prelude.{
  ℕ, suc, ◌+◌, ◌≤◌, ◌<◌, ◌≡◌, ◌⊎◌, inl, inr, refl, sym, ap, ◌∙◌, true, false, Bool-cases, none,
  some, Option-cases, [], ◌∷◌, ◌++◌, ◌∈◌, length, length-append, ◌↔◌, mem-concat, arith,
}
use maze_client.Prelude.Int.{ℤ, pos, negsuc, ◌+ℤ◌}
use maze_client.MapGenerator.Grid.{Grid, Pos, cell, set_cell, Sized, Sized-set_cell}
use maze_client.MapGenerator.Walls.{WallEdgeSet, has_wall}
use maze_client.MapGenerator.Maze.{unvisited_at}
use maze_client.MapGenerator.Maze.Rooms.{Adjacent, Inside}
use maze_client.MapGenerator.Maze.Visit.{Seen, Seen-set_cell, blanks, blanks-set_cell}
use maze_client.MapGenerator.Reachable.{Waiting, Rooms, enter, try_direction}
use maze_client.MapGenerator.Reachable.Queue.{
  Passage, RoomPath, Arrived, step, Banded, Banded-concat,
}

-- No room has a round.
abbrev pub Nobody : Pos → Type 0
Nobody p = ⊥

module _ (n : ℕ) (s : WallEdgeSet) (start goal : Pos) where
  abbrev pub Waits : Rooms → Pos → Type 0
  Waits t p = (d : ℕ) × ((p, d) ∈ t.queue)

  -- A visited room waits in the queue, is the room of the round, or has had its round.
  pub record Inv (IsCurrent : Pos → Type 0) (k : ℕ) (t : Rooms) : Type 0 where
    pub sized : Sized n n t.visited
    pub origin : Seen t.visited start
    pub band : Banded k t.queue
    pub waits :
        (p : Pos) (d : ℕ) → (p, d) ∈ t.queue → Inside n p × Seen t.visited p × Arrived n s start p d
    pub near : (p : Pos) (e : ℕ) → RoomPath n s start p e → e ≤ k → Seen t.visited p
    pub closed :
        (p : Pos)
        → Inside n p
        → Seen t.visited p
        → Waits t p ⊎ (IsCurrent p ⊎ ((q : Pos) → Passage n s p q → Seen t.visited q))
    pub todo : Seen t.visited goal → Waits t goal

  abbrev pub work : Rooms → ℕ
  work t = blanks t.visited + length t.queue

  -- The round of the room `c` at the distance `d`.
  module _ (c : Pos) (d : ℕ) (path : RoomPath n s start c d) where
    abbrev pub Mid : Rooms → Type 0
    Mid = Inv (λ p. p ≡ c) d

    abbrev pushed : Rooms → Pos → Rooms
    pushed t q = record {
      visited = set_cell t.visited q.0 q.1 true;
      queue = t.queue ++ (q, d + 1) ∷ [];
    }

    module _ (t : Rooms) (i : Mid t) (q : Pos) (way : Passage n s c q)
        (blank : cell t.visited q.0 q.1 ≡ false) where
      mark : (p : Pos) → Seen (pushed t q).visited p ↔ (Seen t.visited p ⊎ (p ≡ q))
      mark p = Seen-set_cell n t.visited p q i.sized way.1

      old : (p : Pos) → Seen t.visited p → Seen (pushed t q).visited p
      old p seen = (mark p).1 (inl seen)

      keeps : (p : Pos) (e : ℕ) → (p, e) ∈ t.queue → (p, e) ∈ (pushed t q).queue
      keeps p e m = (mem-concat t.queue (q, d + 1) (p, e)).1 (inl m)

      last : (q, d + 1) ∈ (pushed t q).queue
      last = (mem-concat t.queue (q, d + 1) (q, d + 1)).1 (inr refl)

      least : (e : ℕ) → RoomPath n s start q e → d + 1 ≤ e
      least e w = elim (le_or_gt e d) [
        | inl le ↦ cc (i.near q e w le, blank)
        | inr more ↦ omega arith
      ]
        where
          le_or_gt : (a b : ℕ) → (a ≤ b) ⊎ (b < a)
          le_or_gt a b = ground arith

      plus_one : d + 1 ≡ suc d
      plus_one = omega arith

      arrived : Arrived n s start q (d + 1)
      arrived = (rw plus_one (step path way), least)

      push-Mid : Mid (pushed t q)
      push-Mid = record {
        sized = Sized-set_cell i.sized q.0 q.1 true way.1.0 way.1.1;
        origin = old start i.origin;
        band = Banded-concat d q t.queue i.band;
        waits = λ p e m. elim ((mem-concat t.queue (q, d + 1) (p, e)).0 m) [
          | inl before ↦ let (ip, seen, a) = i.waits p e before in (ip, old p seen, a)
          | inr new ↦
              rw (ap (λ (w : Waiting). w.0) new, ap (λ (w : Waiting). w.1) new)
                (way.1, (mark q).1 (inr refl), arrived)
        ];
        near = λ p e w le. old p (i.near p e w le);
        closed = λ p ip seen. elim ((mark p).0 seen) [
          | inl before ↦ elim (i.closed p ip before) [
            | inl (e, m) ↦ inl (e, keeps p e m)
            | inr (inl same) ↦ inr (inl same)
            | inr (inr done) ↦ inr (inr (λ b w. old b (done b w)))
          ]
          | inr new ↦ inl (d + 1, rw new last)
        ];
        todo = λ seen. elim ((mark goal).0 seen) [
          | inl before ↦ let (e, m) = i.todo before in (e, keeps goal e m)
          | inr new ↦ (d + 1, rw new last)
        ];
      }

      push-work : work (pushed t q) ≡ work t
      push-work = omega (
        arith,
        length-append t.queue ((q, d + 1) ∷ []),
        blanks-set_cell n t.visited q i.sized way.1 blank,
      )

    -- What one direction does; `(x, y)` is where it leads.
    pub record Tried (t : Rooms) (x y : ℤ) (u : Rooms) : Type 0 where
      pub inv : Mid u
      pub grows : (p : Pos) → Seen t.visited p → Seen u.visited p
      pub same_work : work u ≡ work t
      pub covers :
          (q : Pos)
          → x ≡ pos q.0
          → y ≡ pos q.1
          → Inside n q
          → has_wall s c.0 c.1 q.0 q.1 ≡ false
          → Seen u.visited q

    unvisited_at-some :
        (g : Grid) (x y : ℤ) (q : Pos)
        → unvisited_at n g x y ≡ some q
        → (x ≡ pos q.0) × (y ≡ pos q.1) × Inside n q × (cell g q.0 q.1 ≡ false)
    unfolding unvisited_at
    unvisited_at-some g (pos a) (pos b) q e = ground arith
    unvisited_at-some g (pos a) (negsuc b) q e = cc
    unvisited_at-some g (negsuc a) y q e = cc

    unvisited_at-none :
        (g : Grid) (q : Pos) → unvisited_at n g (pos q.0) (pos q.1) ≡ none → Inside n q → Seen g q
    unfolding unvisited_at
    unvisited_at-none g q e inside = ground arith

    module _ (t : Rooms) (i : Mid t) (x y : ℤ) where
      none-Tried : unvisited_at n t.visited x y ≡ none → Tried t x y t
      none-Tried e = record {
        inv = i;
        grows = λ p seen. seen;
        same_work = refl;
        covers = λ q ex ey inside gone. unvisited_at-none t.visited q (rw (← ex, ← ey) e) inside;
      }

      enter-Tried :
          (q : Pos)
          → Adjacent c q
          → (x ≡ pos q.0) × (y ≡ pos q.1) × Inside n q × (cell t.visited q.0 q.1 ≡ false)
          → Tried t x y (enter s n c d t q)
      unfolding enter
      enter-Tried q adj (ex, ey, inside, blank) = elim (Bool-cases (has_wall s c.0 c.1 q.0 q.1)) [
        | inl wall ↦ rw wall (record {
          inv = i;
          grows = λ p seen. seen;
          same_work = refl;
          covers = λ q' ex' ey' inside' gone. cc (wall, gone, ex, ey, ex', ey');
        })
        | inr gone ↦ rw gone (record {
          inv = push-Mid t i q (adj, inside, gone) blank;
          grows = old t i q (adj, inside, gone) blank;
          same_work = push-work t i q (adj, inside, gone) blank;
          covers = λ q' ex' ey' inside' gone'.
              (mark t i q (adj, inside, gone) blank q').1
                (inr (same_pos q' (sym ex' ∙ ex) (sym ey' ∙ ey)));
        })
      ]
        where
          same_pos : (q' : Pos) → pos q'.0 ≡ pos q.0 → pos q'.1 ≡ pos q.1 → q' ≡ q
          same_pos (a, b) e f = ground arith

    pub try_direction-Tried :
        (t : Rooms) (dx dy : ℤ)
        → Mid t
        → ((q : Pos) → pos c.0 +ℤ dx ≡ pos q.0 → pos c.1 +ℤ dy ≡ pos q.1 → Adjacent c q)
        → Tried t (pos c.0 +ℤ dx) (pos c.1 +ℤ dy) (try_direction s n c d t (dx, dy))
    unfolding try_direction
    try_direction-Tried t dx dy i beside =
        elim (Option-cases (unvisited_at n t.visited (pos c.0 +ℤ dx) (pos c.1 +ℤ dy))) [
          | inl e ↦ rw (try_direction, e) (none-Tried t i _ _ e)
          | inr (q, e) ↦
              let found = unvisited_at-some t.visited _ _ q e in
              rw (try_direction, e) (enter-Tried t i _ _ q (beside q found.0 found.1) found)
        ]

    module _ (t : Rooms) (i : Mid t) where
      abbrev tried : Rooms → ℤ → ℤ → Rooms
      tried u dx dy = try_direction s n c d u (dx, dy)

      abbrev after_right : Rooms
      after_right = tried t (pos 1) (pos 0)

      abbrev after_up : Rooms
      after_up = tried after_right (pos 0) (pos 1)

      abbrev after_left : Rooms
      after_left = tried after_up (negsuc 0) (pos 0)

      abbrev after_down : Rooms
      after_down = tried after_left (pos 0) (negsuc 0)

      right : Tried t (pos c.0 +ℤ pos 1) (pos c.1 +ℤ pos 0) after_right
      right = try_direction-Tried t (pos 1) (pos 0) i (λ q ex ey. ground arith)

      up : Tried after_right (pos c.0 +ℤ pos 0) (pos c.1 +ℤ pos 1) after_up
      up = try_direction-Tried after_right (pos 0) (pos 1) right.inv (λ q ex ey. ground arith)

      left : Tried after_up (pos c.0 +ℤ negsuc 0) (pos c.1 +ℤ pos 0) after_left
      left = try_direction-Tried after_up (negsuc 0) (pos 0) up.inv (λ q ex ey. ground arith)

      down : Tried after_left (pos c.0 +ℤ pos 0) (pos c.1 +ℤ negsuc 0) after_down
      down = try_direction-Tried after_left (pos 0) (negsuc 0) left.inv (λ q ex ey. ground arith)

      all_tried : (q : Pos) → Passage n s c q → Seen after_down.visited q
      all_tried q (inl (inl e, same), inside, gone) =
          down.grows q
            (left.grows q (up.grows q (right.covers q (ground arith) (ground arith) inside gone)))
      all_tried q (inr (same, inl e), inside, gone) =
          down.grows q (left.grows q (up.covers q (ground arith) (ground arith) inside gone))
      all_tried q (inl (inr e, same), inside, gone) =
          down.grows q (left.covers q (ground arith) (ground arith) inside gone)
      all_tried q (inr (same, inr e), inside, gone) =
          down.covers q (ground arith) (ground arith) inside gone

      pub round-work : work after_down ≡ work t
      round-work = down.same_work ∙ left.same_work ∙ up.same_work ∙ right.same_work

      pub round-Inv : Inv Nobody d after_down
      round-Inv = record {
        sized = down.inv.sized;
        origin = down.inv.origin;
        band = down.inv.band;
        waits = down.inv.waits;
        near = down.inv.near;
        closed = λ p ip seen. elim (down.inv.closed p ip seen) [
          | inl waiting ↦ inl waiting
          | inr (inl same) ↦ inr (inr (λ q way. all_tried q (rw same at way)))
          | inr (inr done) ↦ inr (inr done)
        ];
        todo = down.inv.todo;
      }
