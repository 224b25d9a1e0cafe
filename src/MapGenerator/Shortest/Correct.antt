-- ===== src/MapGenerator/Shortest/Correct.antt =====
-- `shortest_action_steps` returns the length of a shortest path of moves, or -1 where there is
-- none.
use maze_client.Prelude.{
  ℕ, ◌+◌, ◌*◌, ◌/◌, ◌%◌, ◌≤◌, ◌<◌, ◌≡◌, ◌⊎◌, inl, inr, refl, sym, ap, ◌∙◌, Bool, true, false, not,
  ◌||◌, Option, some, arith, Bool-cases, ◌↔◌,
}
use maze_client.Prelude.Int.{ℤ, pos}
use mathlib.Core.Path.{ap₂, subst}
use maze_client.MapGenerator.Grid.{Grid, Pos, Sized}
use maze_client.MapGenerator.Shortest.{
  minus_one, walkable, step_from, step_target, shortest_action_steps,
}
use maze_client.MapGenerator.Shortest.Moves.{
  Edge, Free, Move, GridPath, index, index-mod, index-div, step_from-Move, Move-step_from,
}
use maze_client.MapGenerator.Shortest.Moves
use maze_client.MapGenerator.Shortest.Visit.{Walk}
use maze_client.MapGenerator.Shortest.Visit
use maze_client.MapGenerator.Shortest.Loop.{Answer, search-Answer}

module _ (blocked : Grid) (cols rows : ℕ) where
  walkable_iff :
      (p : Pos) → (walkable blocked cols rows (pos p.0) (pos p.1) ≡ true) ↔ Free blocked cols rows p
  unfolding walkable
  walkable_iff (x, y) = ground arith

  index-lt : (p : Pos) → Free blocked cols rows p → index blocked cols rows p < cols * rows
  unfolding index
  index-lt (x, y) f = bound f.0 f.1
    where
      bound : x < cols → y < rows → y * cols + x < cols * rows
      bound hx hy = grind arith

  step_target-index :
      (p : Pos) (d : ℤ × ℤ)
      → Free blocked cols rows p
      → step_target blocked cols rows (index blocked cols rows p) d
        ≡ step_from blocked cols rows p.0 p.1 d
  unfolding step_target
  step_target-index p d f =
      ap₂ (λ x y. step_from blocked cols rows x y d) (index-mod blocked cols rows p f.0)
        (index-div blocked cols rows p f.0)

  index_inj :
      (p q : Pos)
      → Free blocked cols rows p
      → Free blocked cols rows q
      → index blocked cols rows p ≡ index blocked cols rows q
      → p ≡ q
  index_inj p q fp fq e = λ i. (xs i, ys i)
    where
      xs : p.0 ≡ q.0
      xs =
          sym (index-mod blocked cols rows p fp.0)
          ∙ ap (λ (n : ℕ). n % cols) e
          ∙ index-mod blocked cols rows q fq.0

      ys : p.1 ≡ q.1
      ys =
          sym (index-div blocked cols rows p fp.0)
          ∙ ap (λ (n : ℕ). n / cols) e
          ∙ index-div blocked cols rows q fq.0

  GridPath-Free :
      {start p : Pos} {d : ℕ} → GridPath blocked cols rows start p d → Free blocked cols rows p
  GridPath-Free (Moves.here f) = f
  GridPath-Free (Moves.step w m) = m.0

  GridPath-Walk :
      {start p : Pos} {d : ℕ}
      → GridPath blocked cols rows start p d
      → Walk blocked cols rows (index blocked cols rows start) (index blocked cols rows p) d
  unfolding Edge
  GridPath-Walk (Moves.here f) = Visit.here
  GridPath-Walk (Moves.step {p} {q} w m) =
      let (d, i, e) = Move-step_from blocked cols rows p q (GridPath-Free w) m in
      Visit.step (GridPath-Walk w) (d, i, step_target-index p d (GridPath-Free w) ∙ e)

  Walk-Path :
      {s v d : ℕ}
      → Walk blocked cols rows s v d
      → (start : Pos) → s ≡ index blocked cols rows start
      → Free blocked cols rows start
      → (p : Pos) × GridPath blocked cols rows start p d × (v ≡ index blocked cols rows p)
  unfolding Edge
  Walk-Path Visit.here start e f = (start, Moves.here f, e)
  Walk-Path (Visit.step w (d, i, target)) start e f =
      let (p, path, at_p) = Walk-Path w start e f in
      let (q, m, at_q) =
        step_from-Move blocked cols rows p d _ i
          (sym (step_target-index p d (GridPath-Free path)) ∙ (rw at_p at target)) in
      (q, Moves.step path m, at_q)

  -- The value -1 stands for "there is no path"; any other value is the length of a shortest one.
  abbrev pub IsShortest : Pos → Pos → Option ℤ → Type 0
  IsShortest start goal r =
      ((d : ℕ) × (r ≡ some (pos d))
        × GridPath blocked cols rows start goal d
        × ((e : ℕ) → GridPath blocked cols rows start goal e → d ≤ e))
      ⊎ (r ≡ some minus_one) × ((e : ℕ) → ¬ GridPath blocked cols rows start goal e)

  module _ (start goal : Pos) (fs : Free blocked cols rows start)
      (fg : Free blocked cols rows goal) where
    Answer-IsShortest :
        (r : Option ℤ)
        → Answer blocked cols rows (index blocked cols rows start) (index blocked cols rows goal) r
        → IsShortest start goal r
    Answer-IsShortest r (inl (d, e, w, least)) =
        let (p, path, at_p) = Walk-Path w start refl fs in
        inl (
          d,
          e,
          subst (λ q. GridPath blocked cols rows start q d)
              (sym (index_inj goal p fg (GridPath-Free path) at_p)) path,
          λ n other. least n (GridPath-Walk other),
        )
    Answer-IsShortest r (inr (e, far)) = inr (e, λ n other. far n (GridPath-Walk other))

  GridPath-start :
      {start p : Pos} {d : ℕ} → GridPath blocked cols rows start p d → Free blocked cols rows start
  GridPath-start (Moves.here f) = f
  GridPath-start (Moves.step w m) = GridPath-start w

  refused : (a b : Bool) → (not a || not b) ≡ true → (a ≡ false) ⊎ (b ≡ false)
  refused a b h = ground arith

  accepted : (a b : Bool) → (not a || not b) ≡ false → (a ≡ true) × (b ≡ true)
  accepted a b h = ground arith

-- For every grid of the stated dimensions, every start and every goal (also off the grid) the search
-- returns. If its value is `d >= 0`, there is a path of `d` moves from the start to the goal over free
-- cells, and none of fewer moves; if it is -1, there is no path at all.
pub shortest_action_steps-IsShortest :
    (blocked : Grid) (cols rows : ℕ) (start goal : Pos)
    → Sized cols rows blocked
    → IsShortest blocked cols rows start goal
        (shortest_action_steps blocked cols rows start.0 start.1 goal.0 goal.1)
unfolding shortest_action_steps index
shortest_action_steps-IsShortest blocked cols rows start goal sized =
    elim (Bool-cases (
      not (walkable blocked cols rows (pos start.0) (pos start.1))
      || not (walkable blocked cols rows (pos goal.0) (pos goal.1)))) [
        | inl e ↦ rw e (
            inr (
              refl,
              λ n path. elim (refused blocked cols rows _ _ e) [
                | inl off ↦ cc (
                    (walkable_iff blocked cols rows start).1
                      (GridPath-start blocked cols rows path))
                | inr off ↦
                    cc (
                      (walkable_iff blocked cols rows goal).1
                        (GridPath-Free blocked cols rows path))
              ],
            ))
        | inr e ↦
            let (a, b) = accepted blocked cols rows _ _ e in
            let fs = (walkable_iff blocked cols rows start).0 a in
            let fg = (walkable_iff blocked cols rows goal).0 b in
            rw e (
              Answer-IsShortest blocked cols rows start goal fs fg _ (
                search-Answer blocked cols rows (index blocked cols rows start)
                  (index-lt blocked cols rows start fs) (index blocked cols rows goal)))
      ]
