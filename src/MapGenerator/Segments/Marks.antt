-- ===== src/MapGenerator/Segments/Marks.antt =====
-- The cells that a segment marks, and the end of a column's run.
use maze_client.Prelude.{
  ℕ, zero, suc, ◌+◌, ◌-◌, ◌≤◌, ◌<◌, ◌≡◌, ◌↔◌, ◌⊎◌, inl, inr, true, false, Bool-cases, ℕ_discrete,
  List, ◌∷◌, arith,
}
use maze_client.Prelude.Loop.{rounds, for_range}
use maze_client.MapGenerator.Grid.{Grid, Pos, cell}
use maze_client.MapGenerator.Segments.{is_used, column_end}

-- Membership of the cell, as a proposition.
abbrev pub Used : ℕ → ℕ → List Pos → Type 0
Used x y used = is_used (x, y) used ≡ true

Used-cons :
    (x y a b : ℕ) (used : List Pos) → Used x y ((a, b) ∷ used) ↔ ((x ≡ a) × (y ≡ b) ⊎ Used x y used)
unfolding is_used
Used-cons x y a b used = ground arith

rounds-Used :
    (x y gx n a : ℕ) (used : List Pos)
    → Used x y (rounds n a (λ gy used. (gx, gy) ∷ used) used)
      ↔ ((x ≡ gx) × (a ≤ y) × (y < a + n) ⊎ Used x y used)
unfolding rounds
rounds-Used x y gx zero a used = ground arith
rounds-Used x y gx (suc n) a used =
    ground (arith, rounds-Used x y gx n (a + 1) ((gx, a) ∷ used), Used-cons x y gx a used)

pub for_range-Used :
    (x y gx a b : ℕ) (used : List Pos)
    → a ≤ b
    → Used x y (for_range a b (λ gy used. (gx, gy) ∷ used) used)
      ↔ ((x ≡ gx) × (a ≤ y) × (y < b) ⊎ Used x y used)
unfolding for_range
for_range-Used x y gx a b used h = ground (arith, rounds-Used x y gx (b - a) a used)

-- From `gy` to `e`, all cells of the column are blocked, and the run ends at `e`.
pub record Run (blocked : Grid) (n gx gy e : ℕ) : Type 0 where
  pub above : gy ≤ e
  pub within : e ≤ n
  pub full : (y : ℕ) → gy ≤ y → y < e → cell blocked gx y ≡ true
  pub ends : (e ≡ n) ⊎ (cell blocked gx e ≡ false)

-- The cells `a` to `b - 1` of column `x` are blocked, and those before and after them are not.
pub record IsRun (blocked : Grid) (n x a b : ℕ) : Type 0 where
  pub column : x < n
  pub some_cell : a < b
  pub run : Run blocked n x a b
  pub starts : (a ≡ 0) ⊎ (cell blocked x (a - 1) ≡ false)

pub column_end-Run :
    {F : Type 0} (blocked : Grid) (n : ℕ) (centre : ℕ → F) (thickness : F) (left gx gy : ℕ)
    → gy + left ≡ n
    → Run blocked n gx gy (column_end blocked n centre thickness left gx gy)
unfolding column_end
column_end-Run blocked n centre thickness zero gx gy e = record {
  above = omega arith;
  within = omega arith;
  full = λ y h k. absurd (omega arith);
  ends = inl (omega arith);
}
column_end-Run blocked n centre thickness (suc left) gx gy e =
    elim (Bool-cases (cell blocked gx gy)) [
      | inl on ↦
          let rest = column_end-Run blocked n centre thickness left gx (gy + 1) (omega arith) in
          rw on (record {
            above = omega (arith, rest.above);
            within = rest.within;
            full = λ y h k. elim (ℕ_discrete y gy) [
              | yes same ↦ rw same on
              | no other ↦ rest.full y (omega arith) k
            ];
            ends = rest.ends;
          })
      | inr off ↦ rw off (record {
        above = omega arith;
        within = omega arith;
        full = λ y h k. absurd (omega arith);
        ends = inr off;
      })
    ]
