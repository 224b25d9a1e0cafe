-- ===== src/MapGenerator/Carve/Paint.antt =====
-- Loops that only write one value to a grid, and the area that they write to.
use maze_client.Prelude.{
  ℕ, zero, suc, ◌+◌, ◌-◌, ◌≤◌, ◌<◌, ◌≡◌, ◌↔◌, ◌⊎◌, inl, inr, refl, arith, Bool, true, false,
  if◌then◌else◌, ℕ_discrete,
}
use maze_client.Prelude.Loop.{rounds, for_range}
use maze_client.MapGenerator.Grid.{
  Grid, cell, set_cell, Sized, Sized-set_cell, cell-set_cell_self, cell-set_cell_ne,
}

module _ (w h : ℕ) (v : Bool) where
  -- `f` writes `v` to the cells of `area` and leaves every other cell as it was.
  pub record Paints (area : ℕ → ℕ → Type 0) (f : Grid → Grid) : Type 0 where
    pub size : (g : Grid) → Sized w h g → Sized w h (f g)
    pub law :
        (g : Grid) → Sized w h g → (x y : ℕ) → (cell (f g) x y ≡ v) ↔ ((cell g x y ≡ v) ⊎ area x y)

  pub Paints-set_cell :
      (a b : ℕ) → a < w → b < h → Paints (λ x y. (x ≡ a) × (y ≡ b)) (λ g. set_cell g a b v)
  Paints-set_cell a b ha hb = record {
    size = λ g s. Sized-set_cell s a b v ha hb;
    law = λ g s x y. elim (ℕ_discrete x a) [
      | yes p ↦ elim (ℕ_discrete y b) [
        | yes q ↦ rw (p, q, cell-set_cell_self s a b v ha hb) (λ e. inr (refl, refl), λ e. refl)
        | no q ↦
            rw (cell-set_cell_ne s a b v ha hb x y (inr (λ e. q (omega arith))))
              (inl, λ d. elim d [ inl k ↦ k | inr k ↦ absurd (q k.1) ])
      ]
      | no p ↦
          rw (cell-set_cell_ne s a b v ha hb x y (inl (λ e. p (omega arith))))
            (inl, λ d. elim d [ inl k ↦ k | inr k ↦ absurd (p k.0) ])
    ];
  }

  pub Paints-id : Paints (λ x y. ⊥) (λ g. g)
  Paints-id = record {
    size = λ g s. s;
    law = λ g s x y. (inl, λ d. elim d [ inl k ↦ k | inr k ↦ absurd k ]);
  }

  pub Paints-seq :
      {A B : ℕ → ℕ → Type 0} {f g : Grid → Grid}
      → Paints A f
      → Paints B g
      → Paints (λ x y. A x y ⊎ B x y) (λ b. g (f b))
  Paints-seq {f = f} p q = record {
    size = λ b s. q.size (f b) (p.size b s);
    law = λ b s x y.
        let first = p.law b s x y in
        let second = q.law (f b) (p.size b s) x y in
        (
          λ e. elim (second.0 e) [
            | inl k ↦ elim (first.0 k) [ inl old ↦ inl old | inr a ↦ inr (inl a) ]
            | inr c ↦ inr (inr c)
          ],
          λ d. elim d [
            | inl old ↦ second.1 (inl (first.1 (inl old)))
            | inr (inl a) ↦ second.1 (inl (first.1 (inr a)))
            | inr (inr c) ↦ second.1 (inr c)
          ],
        );
  }

  pub Paints-if :
      (t : Bool) {A : ℕ → ℕ → Type 0} {f : Grid → Grid}
      → (t ≡ true → Paints A f)
      → Paints (λ x y. (t ≡ true) × A x y) (λ b. if t then f b else b)
  Paints-if true p = record {
    size = (p refl).size;
    law = λ b s x y.
        let l = (p refl).law b s x y in
        (
          λ e. elim (l.0 e) [ inl k ↦ inl k | inr a ↦ inr (refl, a) ],
          λ d. elim d [ inl k ↦ l.1 (inl k) | inr k ↦ l.1 (inr k.1) ],
        );
  }
  Paints-if false p = record {
    size = λ g s. s;
    law = λ g s x y. (inl, λ d. elim d [ inl k ↦ k | inr k ↦ cc ]);
  }

  pub Paints-area :
      {A B : ℕ → ℕ → Type 0} {f : Grid → Grid}
      → ((x y : ℕ) → A x y ↔ B x y)
      → Paints A f
      → Paints B f
  Paints-area same p = record {
    size = p.size;
    law = λ g s x y.
        let l = p.law g s x y in
        (
          λ e. elim (l.0 e) [ inl k ↦ inl k | inr a ↦ inr ((same x y).0 a) ],
          λ d. elim d [ inl k ↦ l.1 (inl k) | inr b ↦ l.1 (inr ((same x y).1 b)) ],
        );
  }

  -- The union of the areas of the rounds.
  abbrev pub Somewhere : ℕ → ℕ → (ℕ → ℕ → ℕ → Type 0) → ℕ → ℕ → Type 0
  Somewhere lo hi A x y = (i : ℕ) × (lo ≤ i) × (i < hi) × A i x y

  Paints-rounds :
      (A : ℕ → ℕ → ℕ → Type 0) (body : ℕ → Grid → Grid) (n i hi : ℕ)
      → i + n ≡ hi
      → ((k : ℕ) → i ≤ k → k < hi → Paints (A k) (body k))
      → Paints (Somewhere i hi A) (rounds n i body)
  unfolding rounds
  Paints-rounds A body zero i hi e p =
      Paints-area (λ x y. (λ b. absurd b, λ (k, lo, up, _). absurd (omega arith))) Paints-id
  Paints-rounds A body (suc n) i hi e p =
      Paints-area
        (λ x y. (
          λ d. elim d [
            | inl a ↦ (i, omega arith, omega arith, a)
            | inr (k, lo, up, a) ↦ (k, omega arith, up, a)
          ],
          λ (k, lo, up, a). elim (ℕ_discrete k i) [
            | yes same ↦ inl (rw same at a)
            | no other ↦ inr (k, omega arith, up, a)
          ],
        ))
        (Paints-seq (p i (omega arith) (omega arith))
          (Paints-rounds A body n (i + 1) hi (omega arith) (λ k lo up. p k (omega arith) up)))

  pub Paints-for_range :
      (A : ℕ → ℕ → ℕ → Type 0) (body : ℕ → Grid → Grid) (lo hi : ℕ)
      → lo ≤ hi
      → ((k : ℕ) → lo ≤ k → k < hi → Paints (A k) (body k))
      → Paints (Somewhere lo hi A) (for_range lo hi body)
  unfolding for_range
  Paints-for_range A body lo hi le p = Paints-rounds A body (hi - lo) lo hi (omega arith) p
