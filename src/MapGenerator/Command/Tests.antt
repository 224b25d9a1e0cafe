-- ===== src/MapGenerator/Command/Tests.antt =====
-- The command on small inputs, and the theorems at inputs that meet their hypotheses.
use mathlib.Core.Path.{subst}
use maze_client.Prelude.{
  sym, inr, arith, ℕ, ◌≡◌, refl, ◌==◌, Bool, false, ◌||◌, none, some, [], ◌∷◌,
}
use maze_client.Prelude.Int.{pos, negsuc}
use maze_client.Prelude.Text.{chars, same}
use maze_client.MapGenerator.Random.{first_rng}
use maze_client.MapGenerator.Ends.{Options, diagonal}
use maze_client.MapGenerator.Config.{
  Config, file_lines, load_config, strip_comment, get_config_value,
}
use maze_client.MapGenerator.Config.Print.{IsSpace}
use maze_client.MapGenerator.Config.RoundTrip.{print_text, AreSections, load_config-print_text}
use maze_client.MapGenerator.Command.{
  Names, Numbers, Arguments, other_file, Files, file_at, Run, resolve, options_of, main, base_seeds,
}
use maze_client.MapGenerator.Map.Passable.{IsPassable}
use maze_client.MapGenerator.Command.Kept.{AreKept, IsCounted, main-IsKept}
use maze_client.MapGenerator.Command.Writes.{AreAbsent, IsComplete, main-IsComplete}

abbrev white_space : ℕ → Bool
white_space c = c == 32 || c == 9 || c == 10 || c == 13

spaces : IsSpace white_space
spaces = record {
  tab = refl;
  line_break = refl;
  return = refl;
  blank = refl;
  quote = refl;
  colon = refl;
}

reads :
    load_config white_space (some (chars "a: # first\n  x: 'b#c'  # note\n\n  y:\nz: 1"))
    ≡ (chars "a", (chars "x", chars "b#c") ∷ (chars "y", []) ∷ []) ∷ []
unfolding load_config strip_comment same
reads = refl

-- A section that comes again is emptied.
again : load_config white_space (some (chars "a:\n x: 1\na:\n")) ≡ (chars "a", []) ∷ []
unfolding load_config strip_comment same
again = refl

-- A return ends a line as well, and one before a line feed is part of its end.
returns :
    file_lines (97 ∷ 13 ∷ 98 ∷ 13 ∷ 10 ∷ 99 ∷ []) ≡ (97 ∷ 10 ∷ []) ∷ (98 ∷ 10 ∷ []) ∷ (99 ∷ []) ∷ []
unfolding file_lines
returns = refl

abbrev config : Config
config = (chars "map", (chars "room_size", chars "1") ∷ (chars "note", chars "a: #1") ∷ []) ∷ []

abbrev standard : ℕ
standard = 40

default_value :
    get_config_value config (chars "map") (chars "grid_count") standard (λ text. some 1) ≡ standard
unfolding get_config_value same
default_value = refl

config-AreSections : AreSections white_space spaces [] config
unfolding same
config-AreSections = (
  (refl, (refl, (refl, tt))),
  tt,
  (
    (refl, (refl, (refl, (refl, (refl, (refl, (refl, (refl, (refl, tt))))))))),
    (refl, tt),
    (refl, tt),
    tt,
    (
      (refl, (refl, (refl, (refl, tt)))),
      (refl, (refl, (refl, (refl, (refl, tt))))),
      (refl, (refl, (refl, (refl, (refl, tt))))),
      (refl, tt),
      tt,
    ),
  ),
  tt,
)

load_config-print_text_example : load_config white_space (some (print_text config)) ≡ config
load_config-print_text_example = load_config-print_text white_space spaces config config-AreSections

abbrev names : Names
names = record {
  map = chars "map";
  start_end = chars "start_end";
  maze = chars "maze";
  grid_count = chars "grid_count";
  grid_size = chars "grid_size";
  room_size = chars "room_size";
  mode = chars "mode";
  min_distance = chars "min_distance";
  fixed_start_x = chars "fixed_start_x";
  fixed_start_y = chars "fixed_start_y";
  fixed_end_x = chars "fixed_end_x";
  fixed_end_y = chars "fixed_end_y";
  difficulty = chars "difficulty";
  wall_thickness = chars "wall_thickness";
  room_obstacle_density = chars "room_obstacle_density";
  extra_open_ratio = chars "extra_open_ratio";
  default = chars "default";
  fixed = chars "fixed";
  random = chars "random";
}

-- Every number is 4.
abbrev numbers : Numbers first_rng
numbers = record {
  int = λ text. some (pos 4);
  float = λ text. none;
  of_int = λ z. 0;
  hundredths = λ n. n;
  clamp_unit = λ x. x;
  ge_zero = λ x. false;
}

abbrev arguments : Arguments first_rng
arguments = record {
  seed = some (pos 7);
  count = pos 2;
  extra_open = none;
  difficulty = some (pos 9);
}

abbrev files : Files first_rng
files = (pos 5, other_file) ∷ []

hardest : (resolve first_rng numbers names arguments []).difficulty ≡ 5
unfolding resolve
hardest = refl

seeds : base_seeds (some (negsuc 0)) 0 2 ≡ some (negsuc 0) ∷ some (pos 0) ∷ []
unfolding base_seeds
seeds = refl

abbrev options : Options first_rng
options = record {
  grid_dim = pos 40;
  grid_size = pos 500;
  wall_thickness = 0;
  extra_open_ratio = 1;
  start_end_mode = diagonal;
  fixed_start = (75000, 75000);
  fixed_end = (1975000, 1975000);
  min_distance = pos 5;
  room_size = 3;
  room_obstacle_density = 0;
}

accepted : options_of first_rng (resolve first_rng numbers names arguments []) ≡ options
unfolding options_of resolve same get_config_value
accepted = refl

absent : AreAbsent first_rng files (pos 7) 0 2
unfolding file_at
absent = (refl, (refl, tt))

abbrev resolved : Options first_rng
resolved = options_of first_rng (resolve first_rng numbers names arguments [])

large_rooms : IsPassable first_rng resolved
large_rooms = subst (IsPassable first_rng) (sym accepted) (inr (omega arith))

on_diagonal : resolved.start_end_mode ≡ diagonal
on_diagonal = subst (λ (o : Options first_rng). o.start_end_mode ≡ diagonal) (sym accepted) refl

main-IsComplete_example :
    (run : Run first_rng) × (main first_rng numbers names arguments [] (λ i. i) files ≡ some run)
    × IsComplete first_rng resolved
        (resolve first_rng numbers names arguments []).difficulty
        (pos 7)
        2
        run
main-IsComplete_example =
    main-IsComplete first_rng numbers names arguments [] (λ i. i) files (pos 7) 2 large_rooms
      on_diagonal refl refl absent

-- The run of the example.
written : Run first_rng
written =
    (main-IsComplete first_rng numbers names arguments [] (λ i. i) files (pos 7) 2 large_rooms
      on_diagonal refl refl absent).0

ran : main first_rng numbers names arguments [] (λ i. i) files ≡ some written
unfolding written
ran =
    (main-IsComplete first_rng numbers names arguments [] (λ i. i) files (pos 7) 2 large_rooms
      on_diagonal refl refl absent).1

main-IsKept_example : AreKept first_rng files written × IsCounted first_rng 1 written
main-IsKept_example = main-IsKept first_rng numbers names arguments [] (λ i. i) files written ran
