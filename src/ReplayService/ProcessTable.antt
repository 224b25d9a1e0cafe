-- ===== src/ReplayService/ProcessTable.antt =====
-- `_process_is_live` and `_process_command`: what the system says of a process.
pub mod Agree
use Prim.Native.String.{String}
use text.Mathlib.Text.{◌==◌ as str_eq, starts_with}
use maze_client.Prelude.{
  ℕ, zero, suc, ◌==◌, Bool, true, false, ◌&&◌, ◌||◌, not, if◌then◌else◌, Option, none, some, List,
  [], ◌∷◌,
}
use maze_client.Prelude.Int.{ℤ, pos, negsuc}

-- `os.kill(pid, 0)`: it succeeds, or raises ProcessLookupError or PermissionError.
pub data Answer : Type 0 where
  alive no_process denied : Answer

-- A file below /proc: there is none, it cannot be read, or its parts.
pub data ProcFile : Type 0 where
  no_file unreadable : ProcFile
  parts : List String → ProcFile

-- A run of `ps`: it cannot be started, or its exit code and its output without white space around it.
pub data Ps : Type 0 where
  not_run : Ps
  exited : ℕ → String → Ps

-- What a check of a process meets, in the order of the code.
pub record Probe : Type 0 where
  pub signal : Answer
  -- /proc/<pid>/stat, split at white space.
  pub stat : ProcFile
  pub ps_status : Ps
  -- The second signal, once `ps` has failed.
  pub signal_again : Answer

-- `len(fields) > 2 and fields[2] != "Z"`
abbrev pub is_running : List String → Bool
is_running [] = false
is_running (a ∷ []) = false
is_running (a ∷ b ∷ []) = false
is_running (a ∷ b ∷ state ∷ fields) = not (str_eq state "Z")

-- A `ps` that exits with an error: only a process that is gone explains it. `none` is the exception.
abbrev pub explain : Answer → Option Bool
explain no_process = some false
explain alive = none
explain denied = none

unfoldable pub check_ps : Ps → Answer → Option Bool
check_ps not_run again = none
check_ps (exited zero status) again =
    if str_eq status "" then none else some (not (starts_with status "Z"))
check_ps (exited (suc code) status) again = explain again

unfoldable pub check_stat : ProcFile → Ps → Answer → Option Bool
unfolding check_ps
check_stat no_file ps again = check_ps ps again
check_stat unreadable ps again = none
check_stat (parts fields) ps again = some (is_running fields)

unfoldable pub check_signal : Answer → Probe → Option Bool
unfolding check_stat
check_signal no_process p = some false
check_signal denied p = none
check_signal alive p = check_stat p.stat p.ps_status p.signal_again

-- `none` is the ReplayServiceError.
unfoldable pub process_is_live : ℤ → Probe → Option Bool
unfolding check_signal
process_is_live (negsuc n) p = some false
process_is_live (pos zero) p = some false
process_is_live (pos (suc n)) p = check_signal p.signal p

-- The parts of /proc/<pid>/cmdline that are not empty.
unfoldable pub filled_parts : List String → List String
filled_parts [] = []
filled_parts (part ∷ rest) =
    let filled = filled_parts rest in if str_eq part "" then filled else part ∷ filled

-- Without a command from `ps`, the process must be gone.
abbrev pub no_command : Option Bool → Option (List String)
no_command none = none
no_command (some true) = none
no_command (some false) = some []

unfoldable pub ps_command : ℤ → Ps → Probe → Option (List String)
unfolding process_is_live
ps_command pid not_run p = none
ps_command pid (exited zero command) p =
    if str_eq command "" then no_command (process_is_live pid p) else some (command ∷ [])
ps_command pid (exited (suc code) command) p = no_command (process_is_live pid p)

-- `cmdline` is the file split at its zero bytes.
unfoldable pub process_command : ℤ → ProcFile → Ps → Probe → Option (List String)
unfolding filled_parts ps_command
process_command pid no_file ps p = ps_command pid ps p
process_command pid unreadable ps p = none
process_command pid (parts cmdline) ps p = some (filled_parts cmdline)
