-- ===== src/MapGenerator/Segments/Cover.antt =====
-- `blocked_to_wall_segments`: the segments are the runs of the columns.
use maze_client.Prelude.{
  ℕ, zero, suc, ◌+◌, ◌-◌, ◌≤◌, ◌<◌, ◌≡◌, refl, ap, ◌∙◌, ◌⊎◌, inl, inr, true, false, Bool-cases,
  List, ◌∈◌, arith, ltb, mem-concat, ℕ_discrete,
}
use mathlib.Core.Path.{subst}
use maze_client.MapGenerator.Grid.{Grid, cell}
use maze_client.MapGenerator.Segments.{Segment, Scan, is_used, column_end, add_column, scan_column}
use maze_client.MapGenerator.Segments.Marks.{Used, for_range-Used, Run, IsRun, column_end-Run}

module _ {F : Type 0} (blocked : Grid) (n : ℕ) (centre : ℕ → F) (thickness : F) where
  -- The vertical segment from the centre of cell (x, a) to that of cell (x, b - 1).
  abbrev pub vertical : ℕ → ℕ → ℕ → Segment F
  vertical x a b = record {
    x1 = centre x;
    y1 = centre a;
    x2 = centre x;
    y2 = centre (b - 1);
    thickness = thickness;
  }

  -- A segment of the list that spans the cell.
  abbrev pub Covers : List (Segment F) → ℕ → ℕ → Type 0
  Covers walls x y =
      (a : ℕ) × (b : ℕ) × IsRun blocked n x a b × (a ≤ y) × (y < b) × (vertical x a b ∈ walls)

  -- The cells before (gx, gy), column by column.
  abbrev Before : ℕ → ℕ → ℕ → ℕ → Type 0
  Before gx gy x y = (x < gx) ⊎ (x ≡ gx) × (y < gy)

  pub record Inv (gx gy : ℕ) (s : Scan F) : Type 0 where
    pub fresh : (x y : ℕ) → Used x y s.used → Before gx gy x y
    pub marked : (x y : ℕ) → y < n → Before gx gy x y → cell blocked x y ≡ true → Used x y s.used
    pub covered :
        (x y : ℕ) → y < n → Before gx gy x y → cell blocked x y ≡ true → Covers s.walls x y
    pub sound :
        (w : Segment F)
        → w ∈ s.walls
        → (x : ℕ) × (a : ℕ) × (b : ℕ) × IsRun blocked n x a b × (w ≡ vertical x a b)

  -- At the start of a run.
  abbrev Edge : ℕ → ℕ → Type 0
  Edge gx gy = gy < n → cell blocked gx gy ≡ true → (gy ≡ 0) ⊎ (cell blocked gx (gy - 1) ≡ false)

  skip-Inv : (gx gy : ℕ) (s : Scan F) → Inv gx gy s → cell blocked gx gy ≡ false → Inv gx (gy + 1) s
  skip-Inv gx gy s i off = record {
    fresh = λ x y u. ground (arith, i.fresh x y u);
    marked = λ x y h b on. i.marked x y h (earlier x y b on) on;
    covered = λ x y h b on. i.covered x y h (earlier x y b on) on;
    sound = i.sound;
  }
    where
      clash : cell blocked gx gy ≡ true → ⊥
      clash on = cc

      earlier : (x y : ℕ) → Before gx (gy + 1) x y → cell blocked x y ≡ true → Before gx gy x y
      earlier x y (inl h) on = inl h
      earlier x y (inr (e, h)) on = elim (ℕ_discrete y gy) [
        | yes same ↦ absurd (clash (rw (e, same) at on))
        | no other ↦ inr (e, omega arith)
      ]

  add_column-Inv :
      (gx gy e : ℕ) (s : Scan F)
      → Inv gx gy s
      → IsRun blocked n gx gy e
      → Inv gx e (add_column blocked n centre thickness gx gy e s)
  unfolding add_column
  add_column-Inv gx gy e s i r = record {
    fresh = λ x y u. elim ((for_range-Used x y gx gy e s.used r.run.above).0 u) [
      | inl (same, _, h) ↦ inr (same, h)
      | inr before ↦ later x y (i.fresh x y before)
    ];
    marked = λ x y h b on.
        (for_range-Used x y gx gy e s.used r.run.above).1
          (elim (split x y b) [ inl new ↦ inl new | inr old ↦ inr (i.marked x y h old on) ]);
    covered = λ x y h b on. elim (split x y b) [
      | inl (same, from, to) ↦
          rw same (gy, e, r, from, to, (mem-concat s.walls new_wall new_wall).1 (inr refl))
      | inr old ↦
          let (a, c, run, from, to, m) = i.covered x y h old on in
          (a, c, run, from, to, (mem-concat s.walls new_wall (vertical x a c)).1 (inl m))
    ];
    sound = λ w m. elim ((mem-concat s.walls new_wall w).0 m) [
      | inl old ↦ i.sound w old
      | inr same ↦ (gx, gy, e, r, same)
    ];
  }
    where
      new_wall : Segment F
      new_wall = vertical gx gy e

      later : (x y : ℕ) → Before gx gy x y → Before gx e x y
      later x y b = ground arith

      split : (x y : ℕ) → Before gx e x y → ((x ≡ gx) × (gy ≤ y) × (y < e)) ⊎ Before gx gy x y
      split x y b = ground arith

  unused : (gx gy : ℕ) (s : Scan F) → Inv gx gy s → is_used (gx, gy) s.used ≡ false
  unused gx gy s i = elim (Bool-cases (is_used (gx, gy) s.used)) [
    | inl u ↦ absurd (nowhere (i.fresh gx gy u))
    | inr h ↦ h
  ]
    where
      nowhere : Before gx gy gx gy → ⊥
      nowhere b = ground arith

  run_end : ℕ → ℕ → ℕ
  run_end gx gy = column_end blocked n centre thickness (n - gy) gx gy

  run_end-IsRun :
      (gx gy : ℕ)
      → gx < n
      → gy < n
      → cell blocked gx gy ≡ true
      → Edge gx gy
      → IsRun blocked n gx gy (run_end gx gy)
  unfolding run_end
  run_end-IsRun gx gy hx hy on edge =
      let run = column_end-Run blocked n centre thickness (n - gy) gx gy (omega arith) in
      record { column = hx; some_cell = longer (run_end gx gy) run; run = run; starts = edge hy on }
    where
      clash : (e : ℕ) → gy ≡ e → cell blocked gx e ≡ false → ⊥
      clash e same off = cc

      longer : (e : ℕ) → Run blocked n gx gy e → gy < e
      longer e run = elim (ℕ_discrete gy e) [
        | no other ↦ omega (arith, run.above)
        | yes same ↦ elim run.ends [
          | inl last ↦ absurd (omega arith)
          | inr off ↦ absurd (clash e same off)
        ]
      ]

  below : (gy : ℕ) → ltb gy n ≡ true → gy + 1 ≤ n
  below gy h = ground arith

  inside : (gy : ℕ) → ltb gy n ≡ true → gy < n
  inside gy h = ground arith

  at_end : (gy : ℕ) → ltb gy n ≡ false → gy ≤ n → gy ≡ n
  at_end gy h k = ground arith

  after : (gx gy : ℕ) → cell blocked gx gy ≡ false → Edge gx (gy + 1)
  after gx gy off h on = inr (ap (λ y. cell blocked gx y) back ∙ off)
    where
      back : gy + 1 - 1 ≡ gy
      back = omega arith

  beyond : (gx e : ℕ) → (e ≡ n) ⊎ (cell blocked gx e ≡ false) → Edge gx e
  beyond gx e (inl last) h on = absurd (omega arith)
  beyond gx e (inr off) h on = cc

  -- The scan of one column, from `gy` on.
  pub scan_column-Inv :
      (fuel gx gy : ℕ) (s : Scan F)
      → gx < n
      → n ≤ gy + fuel
      → gy ≤ n
      → Edge gx gy
      → Inv gx gy s
      → Inv gx n (scan_column blocked n centre thickness fuel gx gy s)
  unfolding scan_column run_end
  scan_column-Inv zero gx gy s hx enough hy edge i = subst (λ k. Inv gx k s) full i
    where
      full : gy ≡ n
      full = omega arith
  scan_column-Inv (suc fuel) gx gy s hx enough hy edge i = elim (Bool-cases (ltb gy n)) [
    | inr done ↦ rw (scan_column, done) (subst (λ k. Inv gx k s) (at_end gy done hy) i)
    | inl more ↦ elim (Bool-cases (cell blocked gx gy)) [
      | inr off ↦
          rw (scan_column, more, off)
            (scan_column-Inv fuel gx (gy + 1) s hx (omega arith) (below gy more) (after gx gy off)
              (skip-Inv gx gy s i off))
      | inl on ↦
          let r = run_end-IsRun gx gy hx (inside gy more) on edge in
          rw (scan_column, more, on, unused gx gy s i)
            (scan_column-Inv fuel gx (run_end gx gy) _ hx (omega (arith, r.some_cell)) r.run.within
              (beyond gx (run_end gx gy) r.run.ends) (add_column-Inv gx gy (run_end gx gy) s i r))
    ]
  ]
