-- ===== src/ReplayService/Command.antt =====
-- `main` and what `_start_replay` does before the lock: the arguments, the configuration and its paths.
pub mod Usable
pub mod Cases
mod Tests
use Prim.Native.String.{String, ◌++◌ as append}
use text.Mathlib.Text.{◌==◌ as str_eq, starts_with}
use maze_client.Prelude.{
  ◌>>=◌, ℕ, ◌==◌, Bool, true, false, ◌&&◌, ◌||◌, not, if◌then◌else◌, Option, none, some, List, [],
  ◌∷◌,
}
use maze_client.Prelude.Int.{ℤ}
use maze_client.Prelude.Text.{Text, same, is_empty, strip}
use maze_client.ReplayService.Config.{parse_port}
use maze_client.ReplayService.Settings.{read_viz_config}
use maze_client.ReplayService.Owner.{World, is_in, contains}
use maze_client.ReplayService.Lifecycle.{
  Os, Request, Poll, Outcome, failed, start_replay, stop_replay,
}

-- What stands at a path; a link leads to something, or to nothing.
pub data Kind : Type 0 where
  absent regular directory special : Kind
  link : Kind → Kind

-- `path.exists()` and `path.is_file()`, which follow links.
abbrev pub exists : Kind → Bool
exists absent = false
exists (link k) = exists k
exists regular = true
exists directory = true
exists special = true

abbrev pub is_file : Kind → Bool
is_file regular = true
is_file (link k) = is_file k
is_file absent = false
is_file directory = false
is_file special = false

-- `not (path.exists() and (path.is_symlink() or not path.is_dir()))`
abbrev pub is_output : Kind → Bool
is_output absent = true
is_output directory = true
is_output (link k) = not (exists k)
is_output regular = false
is_output special = false

-- The paths, files and numbers, as Python's library answers.
pub record Machine : Type 0 where
  pub cwd : Text
  pub expanduser : Text → Text
  pub is_absolute : Text → Bool
  pub join : Text → Text → Text
  pub resolve : Text → Text
  pub parent : Text → Text
  -- `os.path.abspath(os.path.normpath(path))`
  pub normal : Text → Text
  pub kind : Text → Kind
  pub lines : Text → Option (List Text)
  pub int : Text → Option ℤ
  pub isspace : ℕ → Bool
  pub string_of : Text → String
  -- `RL_REPLAY_STATE_DIR`, and the folder that is used without it.
  pub state_dir : Option Text
  pub default_state_dir : Text
  pub server_script : Text

-- The options of a start.
pub record Arguments : Type 0 where
  pub config : Text
  pub replay_dir : Option Text
  pub replay_port : Option Text
  pub host : Text
  pub validation_id : Text

-- The environment: RL_REPLAY_CONFIG, RL_VIZ_OUTPUT_DIR, RL_REPLAY_PORT, RL_REPLAY_HOST and
-- RL_VALIDATION_ID.
pub record Environment : Type 0 where
  pub config : Option Text
  pub output_dir : Option Text
  pub port : Option Text
  pub host : Option Text
  pub validation_id : Option Text

-- `os.environ.get(name, default)`
abbrev pub get_default : Option Text → Text → Text
get_default none default = default
get_default (some value) default = value

-- `override or configured`
abbrev pub or_else : Option Text → Text → Text
or_else none configured = configured
or_else (some override) configured = if is_empty override then configured else override

-- `character in text`
unfoldable pub has_character : ℕ → Text → Bool
has_character c [] = false
has_character c (d ∷ text) = d == c || has_character c text

abbrev pub local_host : Text
local_host = b'0' ∷ b'.' ∷ b'0' ∷ b'.' ∷ b'0' ∷ b'.' ∷ b'0' ∷ []

abbrev pub local_validation : Text
local_validation =
    b'l' ∷ b'o' ∷ b'c' ∷ b'a' ∷ b'l' ∷ b'-' ∷ b'v' ∷ b'a' ∷ b'l' ∷ b'i' ∷ b'd' ∷ b'a' ∷ b't' ∷ b'i'
    ∷ b'o' ∷ b'n' ∷ []

-- The defaults of the options, of which `config` is the one in the repository.
unfoldable pub defaults_of : Text → Environment → Arguments
defaults_of config e = record {
  config = get_default e.config config;
  replay_dir = e.output_dir;
  replay_port = e.port;
  host = get_default e.host local_host;
  validation_id = get_default e.validation_id local_validation;
}

-- The address that is printed, of a host and the port's digits.
unfoldable pub display_host : String → String
display_host host =
    let shown = if str_eq host "0.0.0.0" || str_eq host "::" then "127.0.0.1" else host in
    if contains shown ":" && not (starts_with shown "[")
    then append "[" (append shown "]")
    else shown

unfoldable pub public_url : String → String → String
unfolding display_host
public_url host port = append "http://" (append (display_host host) (append ":" (append port "/")))

-- `_start_replay`, with the lock held from `start_replay` on.
unfoldable pub start : Os → List Poll → World → Option Request → Outcome × World
start os polls w none = (failed, w)
start os polls w (some q) = start_replay os q polls w

unfoldable pub stop : Os → World → Option Text → Outcome × World
stop os w none = (failed, w)
stop os w (some state_dir) = stop_replay os w

-- `remaining == ["-stop"]`
abbrev pub is_stop : List String → Bool
is_stop (a ∷ []) = str_eq a "-stop"
is_stop _ = false

module _ (m : Machine) where
  -- A text of one line without white space at its ends.
  unfoldable pub is_clean : Text → Bool
  unfolding has_character
  is_clean value =
      not (is_empty value)
      && same value (strip m.isspace value)
      && not (has_character 10 value)
      && not (has_character 13 value)

  -- A path of the user's, made absolute from a folder.
  abbrev pub absolute_from : Text → Text → Text
  absolute_from folder path =
      let expanded = m.expanduser path in
      if m.is_absolute expanded then expanded else m.join folder expanded

  -- `_read_viz_config`, once it is known what stands at the path: a regular file, and no link.
  unfoldable pub open_config : Kind → Text → Option (Text × Text × Text)
  open_config regular configured_path = do
    lines ← m.lines (m.resolve configured_path)
    values ← read_viz_config m.isspace lines
    some (m.resolve configured_path, values.0, values.1)
  open_config absent configured_path = none
  open_config directory configured_path = none
  open_config special configured_path = none
  open_config (link k) configured_path = none

  unfoldable pub read_config_file : Text → Option (Text × Text × Text)
  unfolding open_config
  read_config_file config_argument =
      let configured_path = absolute_from m.cwd config_argument in
      open_config (m.kind configured_path) configured_path

  unfoldable pub check_dir : Text → Text → Option Text
  unfolding is_clean
  check_dir config_path value =
      let replay_dir = m.normal (absolute_from (m.parent config_path) value) in
      if is_clean value && is_output (m.kind replay_dir) then some replay_dir else none

  unfoldable pub resolve_replay_config : Text → Option Text → Option Text → Option (Text × Text × ℕ)
  unfolding read_config_file check_dir
  resolve_replay_config config_argument dir_override port_override = do
    (config_path, configured_dir, configured_port) ← read_config_file config_argument
    replay_dir ← check_dir config_path (or_else dir_override configured_dir)
    port ← parse_port (m.int (or_else port_override configured_port))
    some (config_path, replay_dir, port)

  -- `_state_directory`: a directory of the environment must be absolute.
  unfoldable pub state_directory : Option Text
  state_directory = elim m.state_dir [
    | none ↦ some m.default_state_dir
    | some configured ↦
        if is_empty configured
        then some m.default_state_dir
        else if m.is_absolute (m.expanduser configured)
        then some (m.expanduser configured)
        else none
  ]

  -- The folder of the state, once both texts are checked; the server's script must be there.
  unfoldable pub check_service : Arguments → Option Text
  unfolding is_clean state_directory
  check_service a =
      let state_dir = state_directory in
      if is_clean a.host && is_clean a.validation_id
      then (state_dir >>= λ dir. if is_file (m.kind m.server_script) then some dir else none)
      else none

  unfoldable pub prepare : Arguments → Option Request
  unfolding resolve_replay_config check_service
  prepare a = do
    replay ← resolve_replay_config a.config a.replay_dir a.replay_port
    state_dir ← check_service a
    some (record {
      config_path = m.string_of replay.0;
      replay_dir = m.string_of replay.1;
      host = m.string_of a.host;
      port = replay.2;
      validation_id = m.string_of a.validation_id;
    })

  -- `parse` is argparse, with `none` for its exit.
  unfoldable pub main :
      (List String → Option Arguments) → Os → List Poll → List String → World → Outcome × World
  unfolding is_in prepare start stop state_directory
  main parse os polls remaining w =
      if is_stop remaining
      then stop os w state_directory
      else if is_in "-stop" remaining
      then (failed, w)
      else start os polls w (parse remaining >>= prepare)
