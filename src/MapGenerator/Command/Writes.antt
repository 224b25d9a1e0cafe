-- ===== src/MapGenerator/Command/Writes.antt =====
-- A run with a seed and with options that need no second attempt writes all of its maps.
use maze_client.Prelude.{
  ℕ, zero, suc, ◌+◌, ◌≤◌, ◌<◌, ◌≡◌, refl, ap, ◌∙◌, none, some, arith, ℕ_discrete,
}
use maze_client.Prelude.Int.{ℤ, pos, ◌+ℤ◌}
use maze_client.MapGenerator.Random.{Rng}
use maze_client.MapGenerator.Ends.{Options, diagonal}
use maze_client.MapGenerator.Config.{Config}
use maze_client.MapGenerator.Map.Passable.{IsPassable}
use maze_client.MapGenerator.Command.Resolved.{options_of-room_size}
use maze_client.MapGenerator.Command.Written.{IsWritten, generate_all-Written}
use maze_client.MapGenerator.Command.{
  Names, Numbers, Arguments, Files, file_at, Run, generate_all, resolve, options_of, base_seeds,
  count_of, main,
}

module _ (r : Rng) where
  -- No file stands at the seeds from number `i` on.
  abbrev pub AreAbsent : Files r → ℤ → ℕ → ℕ → Type 0
  AreAbsent files s i zero = Unit
  AreAbsent files s i (suc k) = (file_at r (s +ℤ pos i) files ≡ none) × AreAbsent files s (i + 1) k

  AreAbsent-at :
      (files : Files r) (s : ℤ) (i k j : ℕ)
      → AreAbsent files s i k
      → i ≤ j
      → j < i + k
      → file_at r (s +ℤ pos j) files ≡ none
  AreAbsent-at files s i zero j h lo up = absurd (omega arith)
  AreAbsent-at files s i (suc k) j (first, h) lo up = elim (ℕ_discrete j i) [
    | yes same ↦ rw same first
    | no later ↦ AreAbsent-at files s (i + 1) k j h (omega arith) (omega arith)
  ]

  -- The map of every seed from number `i` on is written.
  abbrev pub AreWritten : Options r → ℕ → Files r → ℤ → ℕ → ℕ → Type 0
  AreWritten o difficulty files s i zero = Unit
  AreWritten o difficulty files s i (suc k) =
      IsWritten r o difficulty files (s +ℤ pos i) × AreWritten o difficulty files s (i + 1) k

  AreWritten-all :
      (o : Options r) (difficulty : ℕ) (files : Files r) (s : ℤ) (i k : ℕ)
      → ((j : ℕ) → i ≤ j → j < i + k → IsWritten r o difficulty files (s +ℤ pos j))
      → AreWritten o difficulty files s i k
  AreWritten-all o difficulty files s i zero h = tt
  AreWritten-all o difficulty files s i (suc k) h = (
    h i (omega arith) (omega arith),
    AreWritten-all o difficulty files s (i + 1) k λ j lo up. h j (omega arith) (omega arith),
  )

  -- What a run leaves that was asked for `k` maps.
  abbrev pub IsComplete : Options r → ℕ → ℤ → ℕ → Run r → Type 0
  IsComplete o difficulty s k run =
      (run.success_count ≡ k)
      × (run.total_retries ≡ 0)
      × (run.refused ≡ none)
      × AreWritten o difficulty run.files s 0 k

  generate_all-IsComplete :
      (o : Options r) (difficulty : ℕ) (clock : ℕ → ℕ) (files : Files r) (s : ℤ) (k : ℕ)
      → IsPassable r o
      → 0 < o.room_size
      → o.start_end_mode ≡ diagonal
      → AreAbsent files s 0 k
      → (run : Run r) × (generate_all r o difficulty
            (base_seeds (some s) 0 k)
            clock
            (record { files = files; success_count = 0; total_retries = 0; refused = none })
          ≡ some run)
        × IsComplete o difficulty s k run
  generate_all-IsComplete o difficulty clock files s k passable some_cell mode free =
      let (run, ran, w) =
        generate_all-Written r o difficulty passable some_cell mode s k 0 clock
          (record { files = files; success_count = 0; total_retries = 0; refused = none }) refl
          (λ j lo up. AreAbsent-at files s 0 k j free lo up) in
      (
        run,
        ran,
        (
          omega (arith, w.successes),
          w.retries,
          w.goes_on,
          AreWritten-all o difficulty run.files s 0 k w.written,
        ),
      )

-- A run that is given a seed and a count of at least 0, with end rooms on the diagonal, no obstacles
-- or rooms of at least three cells a side, and an output folder where no map of its seeds stands,
-- writes them all: it counts each of them, repeats no attempt and refuses nothing, and the file of
-- each seed holds the map that the generator gives for this very seed, with the difficulty of the
-- run. The options are those of the command line and the configuration, sizes below 0 included.
pub main-IsComplete :
    (r : Rng) (n : Numbers r) (names : Names) (a : Arguments r) (config : Config) (clock : ℕ → ℕ)
    (files : Files r) (s : ℤ) (k : ℕ)
    → let p = resolve r n names a config in
      let o = options_of r p in
      IsPassable r o
      → o.start_end_mode ≡ diagonal
      → a.seed ≡ some s
      → a.count ≡ pos k
      → AreAbsent r files s 0 k
      → (run : Run r) × (main r n names a config clock files ≡ some run)
        × IsComplete r o p.difficulty s k run
unfolding main
main-IsComplete r n names a config clock files s k passable mode seed count free =
    let p = resolve r n names a config in
    let o = options_of r p in
    let some_cell = options_of-room_size r n names a config in
    let (run, ran, complete) =
      generate_all-IsComplete r o p.difficulty clock files s k passable some_cell mode free in
    let start : Run r = record {
      files = files;
      success_count = 0;
      total_retries = 0;
      refused = none;
    } in
    (
      run,
      ap (λ c. generate_all r o p.difficulty (base_seeds c 0 (count_of a.count)) clock start) seed
          ∙ ap (λ c. generate_all r o p.difficulty (base_seeds (some s) 0 (count_of c)) clock start)
              count
          ∙ ran,
      complete,
    )
