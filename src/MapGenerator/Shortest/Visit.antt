-- ===== src/MapGenerator/Shortest/Visit.antt =====
-- One step out of a cell: `visit`, and what it keeps.
use maze_client.Prelude.{
  ℕ, suc, ◌+◌, ◌*◌, ◌≤◌, ◌<◌, ◌≡◌, ◌≢◌, ◌⊎◌, inl, inr, refl, ◌∙◌, true, false, List, [], ◌∷◌, ◌++◌,
  length, get_or, set, ◌∈◌, arith, length-set, length-append, get_or-set_self, mem-concat,
  Bool-cases,
}
use maze_client.Prelude.Int.{ℤ, pos, negsuc}
use maze_client.MapGenerator.Grid.{Grid}
use maze_client.MapGenerator.Shortest.{Search, minus_one, is_set, visit}
use maze_client.MapGenerator.Shortest.Moves.{Edge}
use maze_client.MapGenerator.Shortest.Levels.{
  unseen, unseen-set, keeps, only, Banded, Grows, Banded-Grows, Banded-concat,
}

-- The walks from `src` by the number of their steps.
pub data Walk (blocked : Grid) (cols rows src : ℕ) : ℕ → ℕ → Type 0 where
  here : Walk blocked cols rows src src 0
  step :
      {u v d : ℕ}
      → Walk blocked cols rows src u d
      → Edge blocked cols rows u v
      → Walk blocked cols rows src v (suc d)

module _ (blocked : Grid) (cols rows src : ℕ) where
  abbrev pub SeenBy : List ℤ → ℕ → ℕ → Type 0
  SeenBy ds v m = (e : ℕ) × (get_or ds v minus_one ≡ pos e) × (e ≤ m)

  -- Every step out of `x`, which has distance `d`, leads to a cell with a distance.
  abbrev pub Closed : List ℤ → ℕ → ℕ → Type 0
  Closed ds x d = (v : ℕ) → Edge blocked cols rows x v → SeenBy ds v (d + 1)

  -- Between two rounds.
  pub record Inv (k : ℕ) (ds : List ℤ) (q : List ℕ) : Type 0 where
    pub size : length ds ≡ cols * rows
    pub source : get_or ds src minus_one ≡ pos 0
    pub band : Banded ds k q
    pub sound :
        (v d : ℕ) → get_or ds v minus_one ≡ pos d → Walk blocked cols rows src v d × (d ≤ k + 1)
    pub closed : (x d : ℕ) → get_or ds x minus_one ≡ pos d → (x ∈ q) ⊎ Closed ds x d

  -- During the round of the cell `u` at distance `k`.
  pub record Mid (u k : ℕ) (s : Search) : Type 0 where
    pub size : length s.distance ≡ cols * rows
    pub source : get_or s.distance src minus_one ≡ pos 0
    pub level : get_or s.distance u minus_one ≡ pos k
    pub band : Banded s.distance k s.queue
    pub sound :
        (v d : ℕ)
        → get_or s.distance v minus_one ≡ pos d
        → Walk blocked cols rows src v d × (d ≤ k + 1)
    pub closed :
        (x d : ℕ)
        → x ≢ u
        → get_or s.distance x minus_one ≡ pos d
        → (x ∈ s.queue) ⊎ Closed s.distance x d

  -- What one direction changes.
  pub record Offered (u k : ℕ) (s t : Search) : Type 0 where
    pub mid : Mid u k t
    pub grows : Grows s.distance t.distance
    pub kept : (x : ℕ) → x ∈ s.queue → x ∈ t.queue
    pub fresh :
        (x d : ℕ)
        → get_or t.distance x minus_one ≡ pos d
        → (get_or s.distance x minus_one ≡ pos d) ⊎ (x ∈ t.queue)
    pub work : unseen t.distance + length t.queue ≡ unseen s.distance + length s.queue

  pub Offered-same : (u k : ℕ) (s : Search) → Mid u k s → Offered u k s s
  Offered-same u k s m = record {
    mid = m;
    grows = λ x d h. h;
    kept = λ x h. h;
    fresh = λ x d h. inl h;
    work = refl;
  }

  pub Offered-trans :
      (u k : ℕ) (s t r : Search) → Offered u k s t → Offered u k t r → Offered u k s r
  Offered-trans u k s t r p q = record {
    mid = q.mid;
    grows = λ x n h. q.grows x n (p.grows x n h);
    kept = λ x h. q.kept x (p.kept x h);
    fresh = λ x d h. elim (q.fresh x d h) [
      | inl before ↦ elim (p.fresh x d before) [ inl old ↦ inl old | inr new ↦ inr (q.kept x new) ]
      | inr new ↦ inr new
    ];
    work = q.work ∙ p.work;
  }

  Closed-Grows : (ds es : List ℤ) (x d : ℕ) → Grows ds es → Closed ds x d → Closed es x d
  Closed-Grows ds es x d g c v edge = let (e, a, le) = c v edge in (e, g v e a, le)

  set-pos : (z : ℤ) → is_set z ≡ true → (e : ℕ) × (z ≡ pos e)
  set-pos (pos e) h = (e, refl)
  set-pos (negsuc e) h = cc

  visit_old :
      (u v : ℕ) (s : Search)
      → is_set (get_or s.distance v minus_one) ≡ true
      → visit blocked cols rows u s v ≡ s
  unfolding visit
  visit_old u v s e = rw e

  visit_new :
      (u k v : ℕ) (s : Search)
      → get_or s.distance u minus_one ≡ pos k
      → is_set (get_or s.distance v minus_one) ≡ false
      → visit blocked cols rows u s v
        ≡ record { distance = set s.distance v (pos (k + 1)); queue = s.queue ++ v ∷ [] }
  unfolding visit
  visit_new u k v s l e = rw (e, l)

  module _ (u k v : ℕ) (s : Search) (m : Mid u k s) (edge : Edge blocked cols rows u v)
      (hv : v < cols * rows) where
    open m use {size, source, level, band, sound, closed}

    visit_old-Offered :
        is_set (get_or s.distance v minus_one) ≡ true
        → Offered u k s s × SeenBy s.distance v (k + 1)
    visit_old-Offered e =
        let (d, a) = set-pos (get_or s.distance v minus_one) e in
        (Offered-same u k s m, (d, a, (sound v d a).1))

    visit_new-Offered :
        is_set (get_or s.distance v minus_one) ≡ false
        → Offered u k s
            (record { distance = set s.distance v (pos (k + 1)); queue = s.queue ++ v ∷ [] })
          × SeenBy (set s.distance v (pos (k + 1))) v (k + 1)
    visit_new-Offered e = (
      record {
        mid = record {
          size = length-set s.distance v _ ∙ size;
          source = grow src 0 source;
          level = grow u k level;
          band =
              Banded-concat ds' k v s.queue new (Banded-Grows s.distance ds' k s.queue grow band);
          sound = λ x d h. elim (only s.distance v (k + 1) in_range e x d h) [
            | inl old ↦ sound x d old
            | inr (same, at_level) ↦
                (rw (same, at_level) (rw k_suc (step (sound u k level).0 edge)), omega arith)
          ];
          closed = λ x d ne h. elim (only s.distance v (k + 1) in_range e x d h) [
            | inl old ↦ elim (closed x d ne old) [
              | inl waits ↦ inl ((mem-concat s.queue v x).1 (inl waits))
              | inr done ↦ inr (Closed-Grows s.distance ds' x d grow done)
            ]
            | inr (same, _) ↦ inl ((mem-concat s.queue v x).1 (inr same))
          ];
        };
        grows = grow;
        kept = λ x h. (mem-concat s.queue v x).1 (inl h);
        fresh = λ x d h. elim (only s.distance v (k + 1) in_range e x d h) [
          | inl old ↦ inl old
          | inr (same, _) ↦ inr ((mem-concat s.queue v x).1 (inr same))
        ];
        work =
            omega
              (arith, length-append s.queue (v ∷ []), unseen-set s.distance v (k + 1) in_range e);
      },
      (k + 1, new, omega arith),
    )
      where
        ds' : List ℤ
        ds' = set s.distance v (pos (k + 1))

        in_range : v < length s.distance
        in_range = rw size hv

        grow : Grows s.distance ds'
        grow = keeps s.distance v (k + 1) in_range e

        new : get_or ds' v minus_one ≡ pos (k + 1)
        new = get_or-set_self s.distance v (pos (k + 1)) minus_one in_range

        k_suc : k + 1 ≡ suc k
        k_suc = omega arith

    pub visit-Offered :
        Offered u k s (visit blocked cols rows u s v)
        × SeenBy (visit blocked cols rows u s v).distance v (k + 1)
    visit-Offered = elim (Bool-cases (is_set (get_or s.distance v minus_one))) [
      | inl e ↦ rw (visit_old u v s e) (visit_old-Offered e)
      | inr e ↦ rw (visit_new u k v s level e) (visit_new-Offered e)
    ]
