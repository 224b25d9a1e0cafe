-- ===== src/MapGenerator/Shortest/Round.antt =====
-- One round of the outer loop, from its invariant to its invariant.
use maze_client.Prelude.{
  ℕ, ◌+◌, ◌≤◌, ◌≡◌, ◌⊎◌, inl, inr, List, ◌∷◌, length, get_or, ◌∈◌, arith, ℕ_discrete,
}
use maze_client.Prelude.Int.{ℤ, pos}
use mathlib.Core.List.{foldl}
use maze_client.MapGenerator.Grid.{Grid}
use maze_client.MapGenerator.Shortest.{Search, action_directions, minus_one, offer}
use maze_client.MapGenerator.Shortest.Moves.{Edge}
use maze_client.MapGenerator.Shortest.Levels.{unseen, Banded, Banded-mem, Banded-next}
use maze_client.MapGenerator.Shortest.Visit.{Walk, Inv, Mid, Closed}
use maze_client.MapGenerator.Shortest.Scan.{Scanned, scan-Scanned}

module _ (blocked : Grid) (cols rows src : ℕ) where
  -- A round from `u ∷ q` to the search `t`: its level, and the invariant after it.
  pub record Round (u : ℕ) (ds : List ℤ) (q : List ℕ) (t : Search) : Type 0 where
    pub j : ℕ
    pub level : get_or ds u minus_one ≡ pos j
    pub walk : Walk blocked cols rows src u j
    pub least : (v d : ℕ) → v ∈ (u ∷ q) → get_or ds v minus_one ≡ pos d → j ≤ d
    pub inv : Inv blocked cols rows src j t.distance t.queue
    pub fresh :
        (x d : ℕ)
        → get_or t.distance x minus_one ≡ pos d
        → (get_or ds x minus_one ≡ pos d) ⊎ (x ∈ t.queue)
    pub kept : (x : ℕ) → x ∈ q → x ∈ t.queue
    pub work : unseen t.distance + length t.queue ≡ unseen ds + length q

  Mid-pop :
      (u k j : ℕ) (ds : List ℤ) (q : List ℕ)
      → Inv blocked cols rows src k ds (u ∷ q)
      → get_or ds u minus_one ≡ pos j
      → k ≤ j
      → Banded ds j q
      → Mid blocked cols rows src u j (record { distance = ds; queue = q })
  Mid-pop u k j ds q i at_u lo band = record {
    size = i.size;
    source = i.source;
    level = at_u;
    band = band;
    sound = λ v d h. let (w, le) = i.sound v d h in (w, omega arith);
    closed = λ x d ne h. elim (i.closed x d h) [
      | inl (inl same) ↦ absurd (ne same)
      | inl (inr waits) ↦ inl waits
      | inr done ↦ inr done
    ];
  }

  least_of :
      (ds : List ℤ) (u j : ℕ) (q : List ℕ)
      → get_or ds u minus_one ≡ pos j
      → Banded ds j q
      → (v d : ℕ) → v ∈ (u ∷ q)
      → get_or ds v minus_one ≡ pos d
      → j ≤ d
  least_of ds u j q at_u band v d (inl same) h = level_le (at_u) (rw same at h)
    where
      level_le : {n : ℕ} → get_or ds u minus_one ≡ pos j → get_or ds u minus_one ≡ pos n → j ≤ n
      level_le a b = ground arith
  least_of ds u j q at_u band v d (inr m) h = go (Banded-mem ds j v q band m)
    where
      go : (get_or ds v minus_one ≡ pos j) ⊎ (get_or ds v minus_one ≡ pos (j + 1)) → j ≤ d
      go c = ground arith

  Closed-head :
      (u j x d : ℕ) (s t : Search)
      → Scanned blocked cols rows src u j s t action_directions
      → x ≡ u
      → get_or t.distance x minus_one ≡ pos d
      → Closed blocked cols rows src t.distance x d
  unfolding Edge
  Closed-head u j x d s t c same h v (dir, m, e) =
      let (n, a, le) = c.seen dir v m (rw same at e) in
      (n, a, bound (c.offered.mid.level) (rw same at h) le)
    where
      bound :
          {n : ℕ}
          → get_or t.distance u minus_one ≡ pos j
          → get_or t.distance u minus_one ≡ pos d
          → n ≤ j + 1
          → n ≤ d + 1
      bound a b le = ground arith

  next-Round :
      (u k j : ℕ) (ds : List ℤ) (q : List ℕ) (t : Search)
      → Inv blocked cols rows src k ds (u ∷ q)
      → get_or ds u minus_one ≡ pos j
      → Banded ds j q
      → Scanned blocked cols rows src u j (record { distance = ds; queue = q }) t action_directions
      → Round u ds q t
  next-Round u k j ds q t i at_u band c = record {
    j = j;
    level = at_u;
    walk = (i.sound u j at_u).0;
    least = least_of ds u j q at_u band;
    inv = record {
      size = m.size;
      source = m.source;
      band = m.band;
      sound = m.sound;
      closed = λ x d h. elim (ℕ_discrete x u) [
        | yes same ↦ inr (Closed-head u j x d _ t c same h)
        | no other ↦ m.closed x d other h
      ];
    };
    fresh = c.offered.fresh;
    kept = c.offered.kept;
    work = c.offered.work;
  }
    where
      open c.offered use {mid as m}

  pub offer-Round :
      (u k : ℕ) (ds : List ℤ) (q : List ℕ)
      → Inv blocked cols rows src k ds (u ∷ q)
      → Round u ds q (
          foldl (offer blocked cols rows u) (record { distance = ds; queue = q }) action_directions)
  offer-Round u k ds q i =
      let (j, at_u, lo, hi, band) = Banded-next ds k u q i.band in
      next-Round u k j ds q _ i at_u band (
        scan-Scanned blocked cols rows src u j _ action_directions (λ d m. m)
          (Mid-pop u k j ds q i at_u lo band))
