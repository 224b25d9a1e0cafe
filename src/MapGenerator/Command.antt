-- ===== src/MapGenerator/Command.antt =====
-- `main`: the parameters of a run, from the command line and the configuration, and its maps.
pub mod Resolved
pub mod Kept
pub mod Written
pub mod Writes
mod Tests
use maze_client.Prelude.{
  ◌>>=◌, ℕ, zero, suc, ◌+◌, ◌*◌, ◌==◌, Bool, true, false, ◌&&◌, ◌||◌, not, if◌then◌else◌, Option,
  none, some, List, [], ◌∷◌, max, min,
}
use maze_client.Prelude.Int.{ℤ, pos, negsuc, ◌+ℤ◌}
use maze_client.Prelude.Text.{Text, same}
use maze_client.MapGenerator.Random.{Rng}
use maze_client.MapGenerator.Ends.{Mode, fixed, random, diagonal, Options}
use maze_client.MapGenerator.Config.{Config, get_config_value}
use maze_client.MapGenerator.Map.{MapData, Outcome, generate_reachable_map}

-- The names of the sections and of their keys, as the file spells them.
pub record Names : Type 0 where
  pub map : Text
  pub start_end : Text
  pub maze : Text
  pub grid_count : Text
  pub grid_size : Text
  pub room_size : Text
  pub mode : Text
  pub min_distance : Text
  pub fixed_start_x : Text
  pub fixed_start_y : Text
  pub fixed_end_x : Text
  pub fixed_end_y : Text
  pub difficulty : Text
  pub wall_thickness : Text
  pub room_obstacle_density : Text
  pub extra_open_ratio : Text
  -- The values of the mode.
  pub default : Text
  pub fixed : Text
  pub random : Text

-- `max(1, z)` and `max(1, min(5, z))`
abbrev pub at_least_one : ℤ → ℕ
at_least_one (pos n) = max 1 n
at_least_one (negsuc n) = 1

abbrev pub level_of : ℤ → ℕ
level_of (pos n) = max 1 (min 5 n)
level_of (negsuc n) = 1

-- `args.difficulty or configured`
abbrev pub nonzero_or : Option ℤ → ℤ → ℤ
nonzero_or none configured = configured
nonzero_or (some (pos zero)) configured = configured
nonzero_or (some (pos (suc n))) configured = pos (suc n)
nonzero_or (some (negsuc n)) configured = negsuc n

-- `[args.seed + i for i in range(args.count)]`, from the number `i` on, and `[None] * args.count`.
unfoldable pub base_seeds : Option ℤ → ℕ → ℕ → List (Option ℤ)
base_seeds seed i zero = []
base_seeds none i (suc count) = none ∷ base_seeds none (i + 1) count
base_seeds (some seed) i (suc count) = some (seed +ℤ pos i) ∷ base_seeds (some seed) (i + 1) count

-- A negative count is an empty range.
abbrev pub count_of : ℤ → ℕ
count_of (pos n) = n
count_of (negsuc n) = 0

abbrev pub same_seed : ℤ → ℤ → Bool
same_seed (pos a) (pos b) = a == b
same_seed (negsuc a) (negsuc b) = a == b
same_seed (pos a) (negsuc b) = false
same_seed (negsuc a) (pos b) = false

module _ (r : Rng) where
  open r use {Real}

  -- Numbers from texts, and what `main` does with floats.
  pub record Numbers : Type 0 where
    pub int : Text → Option ℤ
    pub float : Text → Option Real
    pub of_int : ℤ → Real
    -- `n / 100`
    pub hundredths : ℕ → Real
    -- `max(0.0, min(1.0, x))`
    pub clamp_unit : Real → Real
    -- `x >= 0`
    pub ge_zero : Real → Bool

  -- The options of the command line that a map depends on.
  pub record Arguments : Type 0 where
    pub seed : Option ℤ
    pub count : ℤ
    pub extra_open : Option Real
    pub difficulty : Option ℤ

  pub record Parameters : Type 0 where
    pub grid_count : ℤ
    pub grid_size : ℤ
    pub room_size : ℕ
    pub start_end_mode : Mode
    pub min_distance : ℤ
    pub fixed_start : Real × Real
    pub fixed_end : Real × Real
    pub difficulty : ℕ
    pub wall_thickness : Real
    pub room_obstacle_density : Real
    pub extra_open_ratio : Real

  -- A file of the output folder: one of the generator's, or any other.
  pub data Content : Type 0 where
    other_file : Content
    map_file : MapData r → Content

  -- The files `maze_<seed>.json`, by their seeds.
  abbrev pub Files : Type 0
  Files = List (ℤ × Content)

  unfoldable pub file_at : ℤ → Files → Option Content
  file_at seed [] = none
  file_at seed ((s, content) ∷ files) =
      let rest = file_at seed files in if same_seed seed s then some content else rest

  module _ (n : Numbers) (names : Names) where
    -- `DIFFICULTY_MAP.get(difficulty, 0.08)`
    unfoldable pub ratio_of : ℕ → Real
    ratio_of difficulty = n.hundredths (
        if difficulty == 1
        then 20
        else if difficulty == 2
        then 12
        else if difficulty == 3
        then 8
        else if difficulty == 4
        then 4
        else if difficulty == 5
        then 1
        else 8)

    -- Command line, then configuration if it is not negative, then difficulty.
    unfoldable pub choose_ratio : Option Real → Real → ℕ → Real
    unfolding ratio_of
    choose_ratio (some ratio) configured difficulty = ratio
    choose_ratio none configured difficulty =
        if n.ge_zero configured then configured else ratio_of difficulty

    -- What `generate_map` makes of the mode: every other text is the default.
    abbrev pub mode_of : Text → Mode
    mode_of text =
        if same text names.fixed then fixed else if same text names.random then random else diagonal

    abbrev int_of : Config → Text → Text → ℤ → ℤ
    int_of config section key default = get_config_value config section key default n.int

    abbrev float_of : Config → Text → Text → Real → Real
    float_of config section key default = get_config_value config section key default n.float

    unfoldable pub resolve : Arguments → Config → Parameters
    unfolding choose_ratio same
    resolve a config =
        let difficulty =
          level_of (nonzero_or a.difficulty (int_of config names.maze names.difficulty (pos 3))) in
        record {
          grid_count = int_of config names.map names.grid_count (pos 40);
          grid_size = int_of config names.map names.grid_size (pos 500);
          room_size = at_least_one (int_of config names.map names.room_size (pos 3));
          start_end_mode =
              mode_of (get_config_value config names.start_end names.mode names.default some);
          min_distance = int_of config names.start_end names.min_distance (pos 5);
          fixed_start = (
            float_of config names.start_end names.fixed_start_x (n.hundredths 75000),
            float_of config names.start_end names.fixed_start_y (n.hundredths 75000),
          );
          fixed_end = (
            float_of config names.start_end names.fixed_end_x (n.hundredths 1975000),
            float_of config names.start_end names.fixed_end_y (n.hundredths 1975000),
          );
          difficulty = difficulty;
          wall_thickness = n.of_int (int_of config names.maze names.wall_thickness (pos 10));
          room_obstacle_density =
              n.clamp_unit
                (float_of config names.maze names.room_obstacle_density (n.hundredths 0));
          extra_open_ratio =
              choose_ratio a.extra_open
                (float_of config names.maze names.extra_open_ratio (n.of_int (negsuc 0)))
                difficulty;
        }

  -- The options of `generate_map`.
  unfoldable pub options_of : Parameters → Options r
  options_of p = record {
    grid_dim = p.grid_count;
    grid_size = p.grid_size;
    wall_thickness = p.wall_thickness;
    extra_open_ratio = p.extra_open_ratio;
    start_end_mode = p.start_end_mode;
    fixed_start = p.fixed_start;
    fixed_end = p.fixed_end;
    min_distance = p.min_distance;
    room_size = p.room_size;
    room_obstacle_density = p.room_obstacle_density;
  }

  -- The folder and the counts of a run: it goes on, or it refuses to overwrite the file of a seed.
  pub record Run : Type 0 where
    pub files : Files
    pub success_count : ℕ
    pub total_retries : ℕ
    pub refused : Option ℤ

  -- `map_data["difficulty"] = difficulty`, and the file, which must not be there yet.
  unfoldable pub save_map : ℕ → ℤ → MapData r → Run → Run
  unfolding file_at
  save_map difficulty final_seed map_data run = elim (file_at final_seed run.files) [
    | some content ↦ record run { refused = some final_seed }
    | none ↦ record run {
      files = (final_seed, map_file (record map_data { difficulty = difficulty })) ∷ run.files;
    }
  ]

  -- The body of the loop, once the map is generated.
  unfoldable pub save_outcome : ℕ → Outcome r → Run → Run
  unfolding save_map
  save_outcome difficulty out run =
      let counted = record run { total_retries = run.total_retries + out.retry_count } in
      elim out.map_data [
        | none ↦ counted
        | some map_data ↦
            save_map difficulty out.final_seed map_data
              (record counted { success_count = counted.success_count + 1 })
      ]

  -- A refusal ends the loop.
  abbrev pub unless_refused : Option ℤ → Run → Option Run → Option Run
  unless_refused (some seed) run rest = some run
  unless_refused none run rest = rest

  -- The loop over the seeds, with the clock of each. `none` is a fault of
  -- `generate_map`.
  unfoldable pub generate_all : Options r → ℕ → List (Option ℤ) → (ℕ → ℕ) → Run → Option Run
  unfolding save_outcome
  generate_all o difficulty [] clock run = some run
  generate_all o difficulty (seed ∷ seeds) clock run =
      generate_reachable_map r seed (clock 0) o >>= λ out.
      let next = save_outcome difficulty out run in
      let rest = generate_all o difficulty seeds (λ i. clock (i + 1)) next in
      unless_refused next.refused next rest

  unfoldable pub main : Numbers → Names → Arguments → Config → (ℕ → ℕ) → Files → Option Run
  unfolding resolve options_of base_seeds generate_all
  main n names a config clock files =
      let p = resolve n names a config in
      generate_all (options_of p) p.difficulty (base_seeds a.seed 0 (count_of a.count)) clock
        (record { files = files; success_count = 0; total_retries = 0; refused = none })
