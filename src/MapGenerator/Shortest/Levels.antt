-- ===== src/MapGenerator/Shortest/Levels.antt =====
-- The distances during the search: the cells with none yet, and the two levels in the queue.
use maze_client.Prelude.{
  ℕ, zero, suc, ◌+◌, ◌*◌, ◌≤◌, ◌<◌, ◌≡◌, ◌⊎◌, inl, inr, refl, sym, ◌∙◌, true, false, some, List, [],
  ◌∷◌, ◌++◌, length, get_or, set, ◌∈◌, arith, get_or-set_self, get_or-set_ne, ℕ_discrete,
}
use maze_client.Prelude.Int.{ℤ, pos, negsuc, ◌+ℤ◌}
use maze_client.MapGenerator.Grid.{Grid}
use maze_client.MapGenerator.Shortest.{minus_one, is_set, walkable, cell_index, step_from}

-- The cells with no distance yet.
abbrev pub unseen : List ℤ → ℕ
unseen [] = 0
unseen (pos n ∷ ds) = unseen ds
unseen (negsuc n ∷ ds) = suc (unseen ds)

pub unseen-set :
    (ds : List ℤ) (i n : ℕ)
    → i < length ds
    → is_set (get_or ds i minus_one) ≡ false
    → suc (unseen (set ds i (pos n))) ≡ unseen ds
unseen-set [] i n h e = absurd (omega arith)
unseen-set (pos k ∷ ds) zero n h e = cc
unseen-set (negsuc k ∷ ds) zero n h e = refl
unseen-set (pos k ∷ ds) (suc i) n h e = unseen-set ds i n (omega arith) e
unseen-set (negsuc k ∷ ds) (suc i) n h e = omega (arith, unseen-set ds i n (omega arith) e)

module _ (blocked : Grid) (cols rows : ℕ) where
  cell_index-lt :
      (m n : ℤ)
      → walkable blocked cols rows m n ≡ true
      → cell_index blocked cols rows m n < cols * rows
  unfolding walkable
  cell_index-lt (pos x) (pos y) h = in_range (ground arith) (ground arith)
    where
      in_range : x < cols → y < rows → y * cols + x < cols * rows
      in_range hx hy = grind arith
  cell_index-lt (pos x) (negsuc y) h = cc
  cell_index-lt (negsuc x) n h = cc

  pub step_from-lt :
      (x y : ℕ) (d : ℤ × ℤ) (i : ℕ) → step_from blocked cols rows x y d ≡ some i → i < cols * rows
  unfolding step_from
  step_from-lt x y (dx, dy) i h = ground (arith, cell_index-lt (pos x +ℤ dx) (pos y +ℤ dy))

-- The distances by themselves: reading after a write.
module _ (ds : List ℤ) (v n : ℕ) (hv : v < length ds)
    (fresh : is_set (get_or ds v minus_one) ≡ false) where
  abbrev at : List ℤ → ℕ → ℤ
  at es i = get_or es i minus_one

  pub keeps : (x d : ℕ) → at ds x ≡ pos d → at (set ds v (pos n)) x ≡ pos d
  keeps x d e = elim (ℕ_discrete v x) [
    | yes same ↦ absurd (clash (rw (← same) fresh))
    | no other ↦ rw (get_or-set_ne ds v x (pos n) minus_one other) e
  ]
    where
      clash : is_set (at ds x) ≡ false → ⊥
      clash f = ground arith

  pub only : (x d : ℕ) → at (set ds v (pos n)) x ≡ pos d → (at ds x ≡ pos d) ⊎ (x ≡ v) × (d ≡ n)
  only x d e = elim (ℕ_discrete v x) [
    | yes same ↦ inr (sym same, ground (arith, e, same, get_or-set_self ds v (pos n) minus_one hv))
    | no other ↦ inl (sym (get_or-set_ne ds v x (pos n) minus_one other) ∙ e)
  ]

-- The queue holds cells at distance `k`, then cells at distance `k + 1`.
abbrev pub Later : List ℤ → ℕ → List ℕ → Type 0
Later ds k [] = Unit {0}
Later ds k (x ∷ xs) = (get_or ds x minus_one ≡ pos (k + 1)) × Later ds k xs

abbrev pub Banded : List ℤ → ℕ → List ℕ → Type 0
Banded ds k [] = Unit {0}
Banded ds k (x ∷ xs) = (get_or ds x minus_one ≡ pos k) × Banded ds k xs ⊎ Later ds k (x ∷ xs)

abbrev pub Grows : List ℤ → List ℤ → Type 0
Grows ds es = (x d : ℕ) → get_or ds x minus_one ≡ pos d → get_or es x minus_one ≡ pos d

Later-Grows : (ds es : List ℤ) (k : ℕ) (q : List ℕ) → Grows ds es → Later ds k q → Later es k q
Later-Grows ds es k [] g l = tt
Later-Grows ds es k (x ∷ q) g l = (g x (k + 1) l.0, Later-Grows ds es k q g l.1)

pub Banded-Grows :
    (ds es : List ℤ) (k : ℕ) (q : List ℕ) → Grows ds es → Banded ds k q → Banded es k q
Banded-Grows ds es k [] g b = tt
Banded-Grows ds es k (x ∷ q) g (inl b) = inl (g x k b.0, Banded-Grows ds es k q g b.1)
Banded-Grows ds es k (x ∷ q) g (inr l) = inr (Later-Grows ds es k (x ∷ q) g l)

Later-concat :
    (ds : List ℤ) (k v : ℕ) (q : List ℕ)
    → get_or ds v minus_one ≡ pos (k + 1)
    → Later ds k q
    → Later ds k (q ++ v ∷ [])
Later-concat ds k v [] e l = (e, tt)
Later-concat ds k v (x ∷ q) e l = (l.0, Later-concat ds k v q e l.1)

pub Banded-concat :
    (ds : List ℤ) (k v : ℕ) (q : List ℕ)
    → get_or ds v minus_one ≡ pos (k + 1)
    → Banded ds k q
    → Banded ds k (q ++ v ∷ [])
Banded-concat ds k v [] e b = inr (e, tt)
Banded-concat ds k v (x ∷ q) e (inl b) = inl (b.0, Banded-concat ds k v q e b.1)
Banded-concat ds k v (x ∷ q) e (inr l) = inr (l.0, Later-concat ds k v q e l.1)

Later-Banded : (ds : List ℤ) (k : ℕ) (q : List ℕ) → Later ds k q → Banded ds (k + 1) q
Later-Banded ds k [] l = tt
Later-Banded ds k (x ∷ q) l = inl (l.0, Later-Banded ds k q l.1)

Later-mem :
    (ds : List ℤ) (k v : ℕ) (q : List ℕ)
    → Later ds k q
    → v ∈ q
    → get_or ds v minus_one ≡ pos (k + 1)
Later-mem ds k v (x ∷ q) l (inl e) = rw e l.0
Later-mem ds k v (x ∷ q) l (inr m) = Later-mem ds k v q l.1 m
Later-mem ds k v [] l m = absurd m

pub Banded-mem :
    (ds : List ℤ) (k v : ℕ) (q : List ℕ)
    → Banded ds k q
    → v ∈ q
    → (get_or ds v minus_one ≡ pos k) ⊎ (get_or ds v minus_one ≡ pos (k + 1))
Banded-mem ds k v [] b m = absurd m
Banded-mem ds k v (x ∷ q) (inl b) (inl e) = inl (rw e b.0)
Banded-mem ds k v (x ∷ q) (inl b) (inr m) = Banded-mem ds k v q b.1 m
Banded-mem ds k v (x ∷ q) (inr l) m = inr (Later-mem ds k v (x ∷ q) l m)

-- The head of the queue sets the level of the round.
pub Banded-next :
    (ds : List ℤ) (k x : ℕ) (q : List ℕ)
    → Banded ds k (x ∷ q)
    → (j : ℕ) × (get_or ds x minus_one ≡ pos j) × (k ≤ j) × (j ≤ k + 1) × Banded ds j q
Banded-next ds k x q (inl b) = (k, b.0, omega arith, omega arith, b.1)
Banded-next ds k x q (inr l) = (k + 1, l.0, omega arith, omega arith, Later-Banded ds k q l.1)
