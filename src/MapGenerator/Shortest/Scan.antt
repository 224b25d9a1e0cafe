-- ===== src/MapGenerator/Shortest/Scan.antt =====
-- One round of the search: the loop over the directions, and what it keeps.
use maze_client.Prelude.{
  ℕ, ◌+◌, ◌*◌, ◌/◌, ◌%◌, ◌<◌, ◌≡◌, inl, inr, refl, none, some, List, [], ◌∷◌, ◌∈◌, Option-cases,
}
use maze_client.Prelude.Int.{ℤ}
use mathlib.Core.List.{foldl}
use maze_client.MapGenerator.Grid.{Grid}
use maze_client.MapGenerator.Shortest.{Search, action_directions, step_target, visit, offer}
use maze_client.MapGenerator.Shortest.Moves.{Edge}
use maze_client.MapGenerator.Shortest.Levels.{step_from-lt}
use maze_client.MapGenerator.Shortest.Visit.{
  SeenBy, Mid, Offered, Offered-same, Offered-trans, visit-Offered,
}

module _ (blocked : Grid) (cols rows src : ℕ) where
  -- The scan over a list of directions: what it keeps, and that all targets get a distance.
  pub record Scanned (u k : ℕ) (s t : Search) (dirs : List (ℤ × ℤ)) : Type 0 where
    pub offered : Offered blocked cols rows src u k s t
    pub seen :
        (d : ℤ × ℤ) (v : ℕ)
        → d ∈ dirs
        → step_target blocked cols rows u d ≡ some v
        → SeenBy blocked cols rows src t.distance v (k + 1)

  offer-none :
      (u : ℕ) (s : Search) (d : ℤ × ℤ)
      → step_target blocked cols rows u d ≡ none
      → offer blocked cols rows u s d ≡ s
  unfolding offer
  offer-none u s d e = rw (e, offer)

  offer-some :
      (u v : ℕ) (s : Search) (d : ℤ × ℤ)
      → step_target blocked cols rows u d ≡ some v
      → offer blocked cols rows u s d ≡ visit blocked cols rows u s v
  unfolding offer
  offer-some u v s d e = rw (e, offer)

  step_target-lt :
      (u v : ℕ) (d : ℤ × ℤ) → step_target blocked cols rows u d ≡ some v → v < cols * rows
  unfolding step_target
  step_target-lt u v d e = step_from-lt blocked cols rows (u % cols) (u / cols) d v e

  no_target :
      (u : ℕ) (d d' : ℤ × ℤ) (v : ℕ)
      → step_target blocked cols rows u d ≡ none
      → d' ≡ d
      → step_target blocked cols rows u d' ≡ some v
      → ⊥
  no_target u d d' v e same e' = cc

  same_target :
      (u : ℕ) (d d' : ℤ × ℤ) (v w : ℕ)
      → step_target blocked cols rows u d ≡ some v
      → d' ≡ d
      → step_target blocked cols rows u d' ≡ some w
      → w ≡ v
  same_target u d d' v w e same e' = cc

  offer-Scanned :
      (u k : ℕ) (s : Search) (d : ℤ × ℤ)
      → d ∈ action_directions
      → Mid blocked cols rows src u k s
      → Scanned u k s (offer blocked cols rows u s d) (d ∷ [])
  unfolding Edge
  offer-Scanned u k s d md m = elim (Option-cases (step_target blocked cols rows u d)) [
    | inl none_ ↦ rw (offer-none u s d none_) (record {
      offered = Offered-same blocked cols rows src u k s m;
      seen = λ d' v. elim [
        | inl same ↦ λ e. absurd (no_target u d d' v none_ same e)
        | inr nowhere ↦ absurd nowhere
      ];
    })
    | inr (v, e) ↦
        let (offered, seen) =
          visit-Offered blocked cols rows src u k v s m (d, md, e) (step_target-lt u v d e) in
        rw (offer-some u v s d e) (record {
          offered = offered;
          seen = λ d' w. elim [
            | inl same ↦ λ e'. rw (same_target u d d' v w e same e') seen
            | inr nowhere ↦ absurd nowhere
          ];
        })
  ]

  pub scan-Scanned :
      (u k : ℕ) (s : Search) (dirs : List (ℤ × ℤ))
      → ((d : ℤ × ℤ) → d ∈ dirs → d ∈ action_directions)
      → Mid blocked cols rows src u k s
      → Scanned u k s (foldl (offer blocked cols rows u) s dirs) dirs
  scan-Scanned u k s [] within m = record {
    offered = Offered-same blocked cols rows src u k s m;
    seen = λ d v nowhere. absurd nowhere;
  }
  scan-Scanned u k s (d ∷ dirs) within m =
      let first = offer-Scanned u k s d (within d (inl refl)) m in
      let rest =
        scan-Scanned u k (offer blocked cols rows u s d) dirs (λ d' i. within d' (inr i))
          first.offered.mid in
      record {
        offered = Offered-trans blocked cols rows src u k s _ _ first.offered rest.offered;
        seen = λ d' v. elim [
          | inl same ↦ λ e.
              let (n, a, le) = first.seen d' v (inl same) e in (n, rest.offered.grows v n a, le)
          | inr i ↦ rest.seen d' v i
        ];
      }
