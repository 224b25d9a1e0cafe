-- ===== src/ReplayService/Owner.antt =====
-- The state file of the replay service, and the process that it names: `_load_state`,
-- `_owned_replay_pid` and `_cleanup_state`.
use Prim.Native.String.{String}
use text.Mathlib.Text.{◌==◌ as str_eq, find?}
use maze_client.Prelude.{
  ℕ, suc, ◌==◌, Bool, true, false, ◌&&◌, ◌||◌, if◌then◌else◌, Option, none, some, List, [], ◌∷◌,
}
use maze_client.Prelude.Int.{ℤ, pos}

-- A value of a JSON object, by the types that the script tells apart.
pub data Value : Type 0 where
  missing other : Value
  number : ℤ → Value
  string : String → Value

pub record State : Type 0 where
  pub status : Value
  pub pid : Value
  pub instance_id : Value
  pub config_path : Value
  pub replay_dir : Value
  pub host : Value
  pub port : Value
  pub validation_id : Value
  pub ready_file : Value

-- `service.json`; `unreadable` is what `_load_state` raises an exception for.
pub data StateFile : Type 0 where
  absent unreadable : StateFile
  stored : State → StateFile

pub record Process : Type 0 where
  pub pid : ℕ
  -- The arguments; `none` if they cannot be read, which is an exception.
  pub command : Option (List String)

-- The processes that are live, the state file, the receipts on disk, and the processes that were
-- sent a signal.
pub record World : Type 0 where
  pub processes : List Process
  pub state_file : StateFile
  pub ready_files : List String
  pub signalled : List Process

unfoldable pub find_process : ℕ → List Process → Option Process
find_process pid [] = none
find_process pid (p ∷ ps) = if p.pid == pid then some p else find_process pid ps

unfoldable pub is_in : String → List String → Bool
is_in a [] = false
is_in a (b ∷ bs) = str_eq b a || is_in a bs

abbrev pub contains : String → String → Bool
contains whole a = elim (find? whole a) [ none ↦ false | some i ↦ true ]

-- The command runs the server script under this instance.
unfoldable pub matches : String → String → List String → Bool
unfolding is_in
matches script instance_id (line ∷ []) = contains line script && contains line instance_id
matches script instance_id command = is_in script command && is_in instance_id command

-- A positive process id and an instance id that is not empty.
unfoldable pub identity_of : State → Option (ℕ × String)
identity_of s = elim s.pid [
  | number (pos (suc n)) ↦ elim s.instance_id [
    | string instance_id ↦ if str_eq instance_id "" then none else some (suc n, instance_id)
    | _ ↦ none
  ]
  | _ ↦ none
]

-- An exception, no such process, or the process.
pub data Owned : Type 0 where
  refused gone : Owned
  owned : Process → Owned

-- What the command of a live process says of it.
unfoldable pub judge : String → String → Process → Option (List String) → Owned
unfolding matches
judge script instance_id p none = refused
judge script instance_id p (some []) = gone
judge script instance_id p (some (argument ∷ arguments)) =
    if matches script instance_id (argument ∷ arguments) then owned p else refused

unfoldable pub check_command : String → String → Process → Owned
unfolding judge
check_command script instance_id p = judge script instance_id p p.command

unfoldable pub owned_by : String → List Process → Option (ℕ × String) → Owned
unfolding find_process check_command
owned_by script processes none = refused
owned_by script processes (some (pid, instance_id)) = elim (find_process pid processes) [
  | none ↦ gone
  | some p ↦ check_command script instance_id p
]

unfoldable pub owned_replay_pid : String → World → State → Owned
unfolding owned_by identity_of
owned_replay_pid script w s = owned_by script w.processes (identity_of s)

unfoldable pub remove_file : String → List String → List String
remove_file a [] = []
remove_file a (b ∷ bs) = let rest = remove_file a bs in if str_eq b a then rest else b ∷ rest

unfoldable pub cleanup_state : State → World → World
unfolding remove_file
cleanup_state s w = elim s.ready_file [
  | string file ↦ record w { state_file = absent; ready_files = remove_file file w.ready_files }
  | _ ↦ record w { state_file = absent }
]
