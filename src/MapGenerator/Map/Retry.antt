-- ===== src/MapGenerator/Map/Retry.antt =====
-- `generate_reachable_map` returns the first attempt that can be solved.
use maze_client.Prelude.{
  ℕ, zero, suc, ◌+◌, ◌%◌, ◌^◌, ◌≤◌, ◌<◌, ◌≡◌, ◌⊎◌, inl, inr, refl, ◌∙◌, true, false, Option, none,
  some, arith, ℕ_discrete,
}
use maze_client.Prelude.Int.{ℤ, pos, ◌+ℤ◌}
use maze_client.MapGenerator.Shortest.{minus_one}
use maze_client.MapGenerator.Random.{Rng}
use maze_client.MapGenerator.Ends.{Options, diagonal}
use maze_client.MapGenerator.Map.{
  Generated, MapData, Outcome, no_ends, generated, generate_map, accept, attempts, max_retry,
  generate_reachable_map,
}
use maze_client.MapGenerator.Map.Returns.{HasEnds, generate_map-Returns}
use maze_client.MapGenerator.Map.Passable.{IsPassable}
use maze_client.MapGenerator.Map.Solvable.{generate_map-Solved}

module _ (r : Rng) (o : Options r) where
  -- No ends were found, or the goal is not reached from the start.
  abbrev pub IsUnsolved : Generated r → Type 0
  IsUnsolved (no_ends s) = Unit {0}
  IsUnsolved (generated d s reachable len g n) = reachable ≡ false

  -- The map of an attempt, with the goal reached, and the outcome that has all of it.
  abbrev pub IsOutcome : ℤ → ℕ → Generated r → Outcome r → Type 0
  IsOutcome seed k (no_ends s) out = ⊥
  IsOutcome seed k (generated d s reachable len g n) out =
      (reachable ≡ true)
      × (out ≡ record {
        map_data = some d;
        edge_set = some s;
        path_length = len;
        final_seed = seed +ℤ pos k;
        retry_count = k;
        blocked_grid = some g;
        out_dim = n;
      })

  -- The attempt with this number gives no map that can be solved.
  abbrev pub Refused : ℤ → ℕ → Type 0
  Refused seed k = (g : Generated r) × (generate_map r (seed +ℤ pos k) o ≡ some g) × IsUnsolved g

  abbrev pub FirstAccepted : ℤ → ℕ → ℕ → Outcome r → Type 0
  FirstAccepted seed from k out =
      (g : Generated r) × (generate_map r (seed +ℤ pos k) o ≡ some g)
      × IsOutcome seed k g out
      × ((j : ℕ) → from ≤ j → j < k → Refused seed j)

  verdict :
      (seed : ℤ) (k : ℕ) (g : Generated r)
      → (accept r (seed +ℤ pos k) k g ≡ none) × IsUnsolved g
        ⊎ (out : Outcome r) × (accept r (seed +ℤ pos k) k g ≡ some out) × IsOutcome seed k g out
  unfolding accept
  verdict seed k (no_ends s) = inl (refl, tt)
  verdict seed k (generated d s true len g n) = inr (_, refl, (refl, refl))
  verdict seed k (generated d s false len g n) = inl (refl, refl)

  -- What is returned when all attempts are refused.
  abbrev pub failure : ℤ → Outcome r
  failure seed = record {
    map_data = none;
    edge_set = none;
    path_length = minus_one;
    final_seed = seed;
    retry_count = max_retry;
    blocked_grid = none;
    out_dim = 0;
  }

  attempts_accepted :
      (left from : ℕ) (seed : ℤ) (g : Generated r) (out : Outcome r)
      → generate_map r (seed +ℤ pos from) o ≡ some g
      → accept r (seed +ℤ pos from) from g ≡ some out
      → attempts r (suc left) from seed o ≡ some out
  unfolding attempts
  attempts_accepted left from seed g out made e = ground arith

  attempts_refused :
      (left from : ℕ) (seed : ℤ) (g : Generated r)
      → generate_map r (seed +ℤ pos from) o ≡ some g
      → accept r (seed +ℤ pos from) from g ≡ none
      → attempts r (suc left) from seed o ≡ attempts r left (from + 1) seed o
  unfolding attempts
  attempts_refused left from seed g made e = ground arith

  attempts_lem :
      (left from : ℕ) (seed : ℤ)
      → HasEnds r o
      → (out : Outcome r) × (attempts r left from seed o ≡ some out)
        × (((k : ℕ) × (from ≤ k) × (k < from + left) × FirstAccepted seed from k out)
            ⊎ (out ≡ failure seed) × ((j : ℕ) → from ≤ j → j < from + left → Refused seed j))
  unfolding attempts
  attempts_lem zero from seed ends =
      (failure seed, refl, inr (refl, λ j lo up. absurd (omega arith)))
  attempts_lem (suc left) from seed ends =
      let (g, made) = (generate_map-Returns r o (seed +ℤ pos from)).0 ends in
      let (out, rest, cases) = attempts_lem left (from + 1) seed ends in
      elim (verdict seed from g) [
        | inr (first, e, good) ↦ (
          first,
          attempts_accepted left from seed g first made e,
          inl (from, omega arith, omega arith, (g, made, good, λ j lo up. absurd (omega arith))),
        )
        | inl (e, bad) ↦ (
          out,
          attempts_refused left from seed g made e ∙ rest,
          elim cases [
            | inl (k, lo, up, (g', made', kept, before)) ↦ inl (
              k,
              omega arith,
              omega arith,
              (g', made', kept, λ j lo' up'. earlier g made bad j lo' (λ m. before j m up')),
            )
            | inr (same, all) ↦
                inr (same, λ j lo' up'. earlier g made bad j lo' (λ m. all j m (omega arith)))
          ],
        )
      ]
    where
      earlier :
          (g : Generated r)
          → generate_map r (seed +ℤ pos from) o ≡ some g
          → IsUnsolved g
          → (j : ℕ) → from ≤ j
          → (from + 1 ≤ j → Refused seed j)
          → Refused seed j
      earlier g made bad j lo more = elim (ℕ_discrete j from) [
        | yes same ↦ rw same (g, made, bad)
        | no other ↦ more (omega arith)
      ]

-- Unless the ends are fixed on a map of size 0, the retries return. Either an attempt below 100 is the
-- first whose map has its goal reached, all attempts before it have no ends or do not reach their
-- goal, and what is returned is the map of this attempt, with its walls, grid, path length, seed and
-- number; or none of the 100 attempts is such, and the failure is returned. Attempt `k` has the
-- seed `seed + k`.
pub generate_reachable_map-first :
    (r : Rng) (o : Options r) (seed : ℤ) (now : ℕ)
    → HasEnds r o
    → (out : Outcome r) × (generate_reachable_map r (some seed) now o ≡ some out)
      × (((k : ℕ) × (k < 100) × FirstAccepted r o seed 0 k out)
          ⊎ (out ≡ failure r o seed) × ((j : ℕ) → j < 100 → Refused r o seed j))
unfolding generate_reachable_map
generate_reachable_map-first r o seed now ends =
    let (out, e, cases) = attempts_lem r o 100 0 seed ends in
    (
      out,
      e,
      elim cases [
        | inl (k, lo, up, first) ↦ inl (k, omega arith, first)
        | inr (same, all) ↦ inr (same, λ j up. all j (omega arith) (omega arith))
      ],
    )

pub attempts-no_retry :
    (r : Rng) (o : Options r) (seed : ℤ)
    → IsPassable r o
    → 0 < o.room_size
    → o.start_end_mode ≡ diagonal
    → (out : Outcome r) × (d : MapData r) × (len : ℕ) × (attempts r max_retry 0 seed o ≡ some out)
      × (out.map_data ≡ some d)
      × (out.path_length ≡ pos len)
      × (0 < len)
      × (out.retry_count ≡ 0)
      × (out.final_seed ≡ seed +ℤ pos 0)
unfolding accept
attempts-no_retry r o seed passable some_cell mode =
    let (d, s, len, g, n, made, positive, _, _) =
      generate_map-Solved r o (seed +ℤ pos 0) passable some_cell mode in
    (
      _,
      d,
      len,
      attempts_accepted r o 99 0 seed (generated d s true (pos len) g n) _ made refl,
      refl,
      refl,
      positive,
      refl,
      refl,
    )

-- With the end rooms on the diagonal and rooms of at least one cell, without obstacles or with rooms
-- of at least three cells a side, the first attempt is returned, whether the seed is given or taken
-- from the clock: a map, with its positive path length and no retry.
pub generate_reachable_map-no_retry :
    (r : Rng) (o : Options r) (seed : Option ℤ) (now : ℕ)
    → IsPassable r o
    → 0 < o.room_size
    → o.start_end_mode ≡ diagonal
    → (out : Outcome r) × (d : MapData r) × (len : ℕ) × (generate_reachable_map r seed now o
        ≡ some out)
      × (out.map_data ≡ some d)
      × (out.path_length ≡ pos len)
      × (0 < len)
      × (out.retry_count ≡ 0)
unfolding generate_reachable_map
generate_reachable_map-no_retry r o none now passable some_cell mode =
    let (out, d, len, e, made, path, positive, once, _) =
      attempts-no_retry r o (pos (now % 10 ^ 9)) passable some_cell mode in
    (out, d, len, e, made, path, positive, once)
generate_reachable_map-no_retry r o (some seed) now passable some_cell mode =
    let (out, d, len, e, made, path, positive, once, _) =
      attempts-no_retry r o seed passable some_cell mode in
    (out, d, len, e, made, path, positive, once)
