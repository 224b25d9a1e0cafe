-- ===== src/MapGenerator/Command/Kept.antt =====
-- `main` writes new files only, and counts them.
use maze_client.Prelude.{
  OnSome, OnSome-bind, OnSome-some, ℕ, ◌+◌, ◌≡◌, refl, sym, ap, ◌∙◌, ==_iff, true, Bool-cases,
  Option, none, some, Option-cases, List, [], ◌∷◌, length, inl, inr, arith,
}
use maze_client.Prelude.Int.{ℤ, pos, negsuc}
use maze_client.MapGenerator.Random.{Rng}
use maze_client.MapGenerator.Ends.{Options}
use maze_client.MapGenerator.Config.{Config}
use maze_client.MapGenerator.Map.{MapData, Outcome, generate_reachable_map}
use maze_client.MapGenerator.Command.{
  Names, Numbers, Arguments, Content, Files, file_at, same_seed, Run, save_map, save_outcome,
  generate_all, resolve, options_of, base_seeds, count_of, main,
}

pub same_seed_sound : (s t : ℤ) → same_seed s t ≡ true → s ≡ t
same_seed_sound (pos a) (pos b) h = ap pos ((==_iff a b).0 h)
same_seed_sound (negsuc a) (negsuc b) h = ap negsuc ((==_iff a b).0 h)
same_seed_sound (pos a) (negsuc b) h = ground arith
same_seed_sound (negsuc a) (pos b) h = ground arith

abbrev pub refusals : Option ℤ → ℕ
refusals none = 0
refusals (some seed) = 1

module _ (r : Rng) where
  -- The file that is there is there afterwards, and every success is a new file but for one that was
  -- refused.
  abbrev pub IsKept : ℤ → Content r → Run r → Type 0
  IsKept seed content run = file_at r seed run.files ≡ some content

  pub file_at-cons :
      (s t : ℤ) (c d : Content r) (files : Files r)
      → file_at r s files ≡ some c
      → file_at r t files ≡ none
      → file_at r s ((t, d) ∷ files) ≡ some c
  unfolding file_at
  file_at-cons s t c d files there absent = elim (Bool-cases (same_seed s t)) [
    | inl same ↦
        ground (arith, sym there ∙ ap (λ u. file_at r u files) (same_seed_sound s t same) ∙ absent)
    | inr other ↦ rw other there
  ]

  -- The balance of a run from a folder of `k` files.
  abbrev pub IsCounted : ℕ → Run r → Type 0
  IsCounted k run = run.success_count + k ≡ length run.files + refusals run.refused

  save_map-IsKept :
      (difficulty : ℕ) (final s : ℤ) (d : MapData r) (c : Content r) (run : Run r)
      → IsKept s c run
      → IsKept s c (save_map r difficulty final d run)
  unfolding save_map
  save_map-IsKept difficulty final s d c run there =
      elim (Option-cases (file_at r final run.files)) [
        | inr (old, e) ↦ rw (save_map, e) there
        | inl absent ↦ rw (save_map, absent) (file_at-cons s final c _ run.files there absent)
      ]

  save_map-IsCounted :
      (difficulty k : ℕ) (final : ℤ) (d : MapData r) (run : Run r)
      → run.refused ≡ none
      → run.success_count + k ≡ length run.files + 1
      → IsCounted k (save_map r difficulty final d run)
  unfolding save_map
  save_map-IsCounted difficulty k final d run going sum =
      elim (Option-cases (file_at r final run.files)) [
        | inr (old, e) ↦ rw (save_map, e) sum
        | inl absent ↦ rw (save_map, absent, going) (omega (arith, sum))
      ]

  -- Every file that was there is there, with what it held.
  abbrev pub AreKept : Files r → Run r → Type 0
  AreKept files run = (s : ℤ) (c : Content r) → file_at r s files ≡ some c → IsKept s c run

  -- What a run keeps from one seed to the next.
  record Balanced (files : Files r) (run : Run r) : Type 0 where
    kept : AreKept files run
    counted : IsCounted (length files) run

  save_outcome-Balanced :
      (difficulty : ℕ) (files : Files r) (out : Outcome r) (run : Run r)
      → run.refused ≡ none
      → Balanced files run
      → Balanced files (save_outcome r difficulty out run)
  unfolding save_outcome
  save_outcome-Balanced difficulty files out run going b = elim (Option-cases out.map_data) [
    | inl failed ↦ rw (save_outcome, failed) (record { kept = b.kept; counted = b.counted })
    | inr (d, made) ↦
        let counted : Run r = record run {
          total_retries = run.total_retries + out.retry_count;
          success_count = run.success_count + 1;
        } in
        rw (save_outcome, made)
          (record {
            kept = λ s c there.
                save_map-IsKept difficulty out.final_seed s d c counted (b.kept s c there);
            counted =
                save_map-IsCounted difficulty (length files) out.final_seed d counted going
                  (omega (arith, b.counted ∙ ap (λ o. length run.files + refusals o) going));
          })
  ]

  generate_all-Balanced :
      (o : Options r) (difficulty : ℕ) (files : Files r) (seeds : List (Option ℤ)) (clock : ℕ → ℕ)
      (run : Run r)
      → run.refused ≡ none
      → Balanced files run
      → OnSome (Balanced files) (generate_all r o difficulty seeds clock run)
  unfolding generate_all
  generate_all-Balanced o difficulty files [] clock run going b = b
  generate_all-Balanced o difficulty files (seed ∷ seeds) clock run going b =
      OnSome-bind (Balanced files) (generate_reachable_map r seed (clock 0) o) _ λ out e.
        let next = save_outcome r difficulty out run in
        let b' = save_outcome-Balanced difficulty files out run going b in
        elim (Option-cases next.refused) [
          | inr (stop, e') ↦ rw e' b'
          | inl goes_on ↦
              rw goes_on (
                generate_all-Balanced o difficulty files seeds (λ i. clock (i + 1)) next goes_on b')
        ]

  main-Balanced :
      (n : Numbers r) (names : Names) (a : Arguments r) (config : Config) (clock : ℕ → ℕ)
      (files : Files r)
      → OnSome (Balanced files) (main r n names a config clock files)
  unfolding main
  main-Balanced n names a config clock files =
      let p = resolve r n names a config in
      generate_all-Balanced (options_of r p) p.difficulty files
        (base_seeds a.seed 0 (count_of a.count)) clock
        (record { files = files; success_count = 0; total_retries = 0; refused = none }) refl
        (record { kept = λ s c there. there; counted = omega arith })

-- Whatever the options and the configuration, after a run that ends, be it with a refusal, every file
-- that stood in the output folder before stands there unchanged, and the counted successes are as
-- many as the new files, with one more for a map that was refused. A run does not end if
-- `generate_map` raises an exception.
pub main-IsKept :
    (r : Rng) (n : Numbers r) (names : Names) (a : Arguments r) (config : Config) (clock : ℕ → ℕ)
    (files : Files r) (run : Run r)
    → main r n names a config clock files ≡ some run
    → AreKept r files run × IsCounted r (length files) run
main-IsKept r n names a config clock files run ran =
    let b =
      OnSome-some (Balanced r files) (main r n names a config clock files) run
        (main-Balanced r n names a config clock files) ran in
    (b.kept, b.counted)
