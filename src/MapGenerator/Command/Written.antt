-- ===== src/MapGenerator/Command/Written.antt =====
-- The loop over seeds that need no second attempt, one map after the other.
use maze_client.Prelude.{
  ◌>>=◌, ℕ, zero, suc, ◌+◌, ◌≤◌, ◌<◌, ◌≡◌, refl, ap, ◌∙◌, ==_iff, true, false, Option, none, some,
  List, ◌∷◌, arith, ℕ_discrete,
}
use maze_client.Prelude.Int.{ℤ, pos, negsuc, ◌+ℤ◌}
use maze_client.MapGenerator.Random.{Rng}
use maze_client.MapGenerator.Ends.{Options, diagonal}
use maze_client.MapGenerator.Map.{MapData, Outcome, generate_reachable_map}
use maze_client.MapGenerator.Map.Passable.{IsPassable}
use maze_client.MapGenerator.Map.Retry.{attempts-no_retry}
use maze_client.MapGenerator.Command.Kept.{file_at-cons}
use maze_client.MapGenerator.Command.{
  Content, map_file, Files, file_at, same_seed, Run, save_map, save_outcome, unless_refused,
  generate_all, base_seeds,
}

same_seed_refl : (s : ℤ) → same_seed s s ≡ true
same_seed_refl (pos a) = (==_iff a a).1 refl
same_seed_refl (negsuc a) = (==_iff a a).1 refl

-- The seeds of a run are distinct.
same_seed-offset : (s : ℤ) (i j : ℕ) → j < i → same_seed (s +ℤ pos i) (s +ℤ pos j) ≡ false
same_seed-offset (pos a) i j h = ground arith
same_seed-offset (negsuc a) i j h = ground arith

offset_zero : (s : ℤ) → s +ℤ pos 0 ≡ s
offset_zero (pos a) = ap pos (omega arith)
offset_zero (negsuc a) = ground arith

module _ (r : Rng) (o : Options r) (difficulty : ℕ) where
  -- The file of a seed holds the map that the generator gives for it, with the difficulty.
  abbrev pub IsWritten : Files r → ℤ → Type 0
  IsWritten files seed =
      (now : ℕ) × (out : Outcome r) × (d : MapData r) × (generate_reachable_map r (some seed) now o
        ≡ some out)
      × (out.map_data ≡ some d)
      × (file_at r seed files ≡ some (map_file (record d { difficulty = difficulty })))

  -- A run after one more map.
  abbrev after : ℤ → MapData r → Run r → Run r
  after seed d run = record {
    files = (seed, map_file (record d { difficulty = difficulty })) ∷ run.files;
    success_count = run.success_count + 1;
    total_retries = run.total_retries + 0;
    refused = run.refused;
  }

  save_map-new :
      (final : ℤ) (d : MapData r) (run : Run r)
      → file_at r final run.files ≡ none
      → save_map r difficulty final d run ≡ record run {
        files = (final, map_file (record d { difficulty = difficulty })) ∷ run.files;
      }
  unfolding save_map
  save_map-new final d run absent = rw (save_map, absent) refl

  save_outcome-new :
      (seed : ℤ) (out : Outcome r) (d : MapData r) (run : Run r)
      → out.map_data ≡ some d
      → out.final_seed ≡ seed
      → out.retry_count ≡ 0
      → file_at r seed run.files ≡ none
      → save_outcome r difficulty out run ≡ after seed d run
  unfolding save_outcome
  save_outcome-new seed out d run made final once absent =
      rw (save_outcome, made, final, once)
        (save_map-new seed d
          (record run {
            total_retries = run.total_retries + 0;
            success_count = run.success_count + 1;
          })
          absent)

  generate_all-cons :
      (seed : ℤ) (seeds : List (Option ℤ)) (clock : ℕ → ℕ) (run next : Run r) (out : Outcome r)
      → generate_reachable_map r (some seed) (clock 0) o ≡ some out
      → save_outcome r difficulty out run ≡ next
      → next.refused ≡ none
      → generate_all r o difficulty (some seed ∷ seeds) clock run
        ≡ generate_all r o difficulty seeds (λ i. clock (i + 1)) next
  unfolding generate_all
  generate_all-cons seed seeds clock run next out made saved goes_on =
      let rest = λ (n : Run r). generate_all r o difficulty seeds (λ i. clock (i + 1)) n in
      ap
        (λ g. g >>= λ out.
          unless_refused r (save_outcome r difficulty out run).refused
            (save_outcome r difficulty out run) (rest (save_outcome r difficulty out run)))
        made
      ∙ ap (λ n. unless_refused r n.refused n (rest n)) saved
      ∙ ap (λ f. unless_refused r f next (rest next)) goes_on

  file_at_here :
      (seed : ℤ) (c : Content r) (files : Files r) → file_at r seed ((seed, c) ∷ files) ≡ some c
  unfolding file_at
  file_at_here seed c files = rw (same_seed_refl seed) refl

  file_at_other :
      (s t : ℤ) (c : Content r) (files : Files r)
      → same_seed s t ≡ false
      → file_at r s ((t, c) ∷ files) ≡ file_at r s files
  unfolding file_at
  file_at_other s t c files other = rw other refl

  -- What `k` seeds from the number `i` on make of a run.
  pub record Written (s : ℤ) (i k : ℕ) (run run' : Run r) : Type 0 where
    pub successes : run'.success_count ≡ run.success_count + k
    pub retries : run'.total_retries ≡ run.total_retries
    pub goes_on : run'.refused ≡ none
    pub written : (j : ℕ) → i ≤ j → j < i + k → IsWritten run'.files (s +ℤ pos j)
    pub kept :
        (t : ℤ) (c : Content r) → file_at r t run.files ≡ some c → file_at r t run'.files ≡ some c

  module _ (passable : IsPassable r o) (some_cell : 0 < o.room_size)
      (mode : o.start_end_mode ≡ diagonal) where
    one_map :
        (seed : ℤ) (now : ℕ) (run : Run r)
        → file_at r seed run.files ≡ none
        → (out : Outcome r) × (d : MapData r) × (generate_reachable_map r (some seed) now o
            ≡ some out)
          × (out.map_data ≡ some d)
          × (save_outcome r difficulty out run ≡ after seed d run)
    unfolding generate_reachable_map
    one_map seed now run absent =
        let (out, d, len, made, there, _, _, once, final) =
          attempts-no_retry r o seed passable some_cell mode in
        (
          out,
          d,
          made,
          there,
          save_outcome-new seed out d run there (final ∙ offset_zero seed) once absent,
        )

    pub generate_all-Written :
        (s : ℤ) (k i : ℕ) (clock : ℕ → ℕ) (run : Run r)
        → run.refused ≡ none
        → ((j : ℕ) → i ≤ j → j < i + k → file_at r (s +ℤ pos j) run.files ≡ none)
        → (run' : Run r) × (generate_all r o difficulty (base_seeds (some s) i k) clock run
            ≡ some run')
          × Written s i k run run'
    unfolding base_seeds generate_all
    generate_all-Written s zero i clock run going free = (
      run,
      refl,
      record {
        successes = omega arith;
        retries = refl;
        goes_on = going;
        written = λ j lo up. absurd (omega arith);
        kept = λ t c there. there;
      },
    )
    generate_all-Written s (suc k) i clock run going free =
        let seed = s +ℤ pos i in
        let absent = free i (omega arith) (omega arith) in
        let (out, d, made, there, saved) = one_map seed (clock 0) run absent in
        let (run', ran, w) =
          generate_all-Written s k (i + 1) (λ n. clock (n + 1)) (after seed d run) going
            (λ j lo up.
              file_at_other (s +ℤ pos j) seed _ run.files (same_seed-offset s j i (omega arith))
              ∙ free j (omega arith) (omega arith)) in
        (
          run',
          generate_all-cons seed (base_seeds (some s) (i + 1) k) clock run (after seed d run) out
                made saved going
              ∙ ran,
          record {
            successes = omega (arith, w.successes);
            retries = omega (arith, w.retries);
            goes_on = w.goes_on;
            written = λ j lo up. elim (ℕ_discrete j i) [
              | yes same ↦
                  rw same
                    (clock 0, out, d, made, there, w.kept seed _ (file_at_here seed _ run.files))
              | no later ↦ w.written j (omega arith) (omega arith)
            ];
            kept = λ t c old. w.kept t c (file_at-cons r t seed c _ run.files old absent);
          },
        )
