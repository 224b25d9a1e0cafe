-- ===== src/ReplayService/Lifecycle.antt =====
-- `_start_replay` and `_stop_replay`, under the lock on the state directory.
use Prim.Native.String.{String}
use text.Mathlib.Text.{◌==◌ as str_eq}
use maze_client.Prelude.{
  ℕ, Bool, true, false, ◌&&◌, if◌then◌else◌, Option, none, some, List, [], ◌∷◌, ◌==◌,
}
use maze_client.Prelude.Int.{pos}
use maze_client.ReplayService.Owner.{
  Value, number, string, State, StateFile, absent, unreadable, stored, Process, World, find_process,
  Owned, refused, gone, owned, owned_replay_pid, cleanup_state,
}

-- What the script asks the machine: the paths and names that it is given, the process that it
-- starts, and the processes that are live once it has waited.
pub record Os : Type 0 where
  pub python : String
  pub script : String
  pub show : ℕ → String
  pub new_pid : ℕ
  pub token : String
  pub ready_file : String
  pub signal_denied : Bool
  pub after_start : List Process → List Process
  pub after_term : List Process → List Process
  pub after_kill : List Process → List Process

pub record Request : Type 0 where
  pub config_path : String
  pub replay_dir : String
  pub host : String
  pub port : ℕ
  pub validation_id : String

-- `ready-<token>.json`, as the server writes it.
pub record Receipt : Type 0 where
  pub schema_version : Value
  pub source : Value
  pub pid : Value
  pub instance_id : Value
  pub replay_dir : Value
  pub host : Value
  pub port : Value

-- One round of the wait: the receipt, if it can be read, and whether the server has ended.
pub record Poll : Type 0 where
  pub receipt : Option Receipt
  pub exited : Bool

-- `failed` is an exception.
pub data Outcome : Type 0 where
  not_running failed : Outcome
  stopped started already_running : ℕ → Outcome

abbrev pub is_number : Value → ℕ → Bool
is_number (number (pos m)) n = m == n
is_number _ n = false

abbrev pub is_string : Value → String → Bool
is_string (string a) b = str_eq a b
is_string _ b = false

module _ (os : Os) where
  -- From the second check of the process on: SIGKILL, and the last wait.
  unfoldable pub stop_kill : State → Process → Process → World → Outcome × World
  unfolding find_process cleanup_state
  stop_kill s p q w =
      let w' = record w { processes = os.after_kill w.processes; signalled = q ∷ w.signalled } in
      elim (find_process p.pid w'.processes) [
        | none ↦ (stopped p.pid, cleanup_state s w')
        | some r ↦ (failed, w')
      ]

  -- A process that still runs after SIGTERM is checked again; only a refusal keeps it from SIGKILL.
  unfoldable pub check_again : State → Process → Process → World → Owned → Outcome × World
  unfolding stop_kill
  check_again s p q w refused = (failed, w)
  check_again s p q w gone = stop_kill s p q w
  check_again s p q w (owned r) = stop_kill s p q w

  unfoldable pub stop_term : State → Process → World → Outcome × World
  unfolding check_again
  stop_term s p w = elim (find_process p.pid w.processes) [
    | none ↦ (stopped p.pid, cleanup_state s w)
    | some q ↦ check_again s p q w (owned_replay_pid os.script w s)
  ]

  unfoldable pub stop_owned : State → World → Owned → Outcome × World
  unfolding stop_term
  stop_owned s w refused = (failed, w)
  stop_owned s w gone = (not_running, cleanup_state s w)
  stop_owned s w (owned p) =
      if os.signal_denied
      then (failed, w)
      else stop_term s p
          (record w { processes = os.after_term w.processes; signalled = p ∷ w.signalled })

  unfoldable pub stop_file : World → StateFile → Outcome × World
  unfolding stop_owned
  stop_file w absent = (not_running, w)
  stop_file w unreadable = (failed, w)
  stop_file w (stored s) = stop_owned s w (owned_replay_pid os.script w s)

  unfoldable pub stop_replay : World → Outcome × World
  unfolding stop_file
  stop_replay w = stop_file w w.state_file

  abbrev pub command_of : Request → List String
  command_of q =
      os.python
      ∷ "-u"
      ∷ os.script
      ∷ "--dir"
      ∷ q.replay_dir
      ∷ "--host"
      ∷ q.host
      ∷ "--port"
      ∷ os.show q.port
      ∷ "--mode"
      ∷ "evaluation"
      ∷ "--validation-id"
      ∷ q.validation_id
      ∷ "--instance-id"
      ∷ os.token
      ∷ "--ready-file"
      ∷ os.ready_file
      ∷ []

  abbrev pub process_of : Request → Process
  process_of q = record { pid = os.new_pid; command = some (command_of q) }

  abbrev pub state_of : Request → String → State
  state_of q status = record {
    status = string status;
    pid = number (pos os.new_pid);
    instance_id = string os.token;
    config_path = string q.config_path;
    replay_dir = string q.replay_dir;
    host = string q.host;
    port = number (pos q.port);
    validation_id = string q.validation_id;
    ready_file = string os.ready_file;
  }

  unfoldable pub validate_ready_receipt : Request → Option Receipt → Bool
  validate_ready_receipt q none = false
  validate_ready_receipt q (some r) =
      is_number r.schema_version 1
      && is_string r.source "client-replay-ready"
      && is_number r.pid os.new_pid
      && is_string r.instance_id os.token
      && is_string r.replay_dir q.replay_dir
      && is_string r.host q.host
      && is_number r.port q.port

  -- The rounds of the wait before its deadline.
  unfoldable pub await_ready : Request → List Poll → Bool
  unfolding validate_ready_receipt
  await_ready q [] = false
  await_ready q (poll ∷ polls) =
      let rest = await_ready q polls in
      if validate_ready_receipt q poll.receipt then true else if poll.exited then false else rest

  -- The handler of a failed start: SIGTERM, SIGKILL if that is not enough, and the exception again.
  unfoldable pub abort_kill : State → ℕ → World → Option Process → Outcome × World
  unfolding find_process cleanup_state
  abort_kill s pid w none = (failed, cleanup_state s w)
  abort_kill s pid w (some p) =
      let w' = record w { processes = os.after_kill w.processes; signalled = p ∷ w.signalled } in
      elim (find_process pid w'.processes) [
        | none ↦ (failed, cleanup_state s w')
        | some r ↦ (failed, w')
      ]

  unfoldable pub abort_start : State → ℕ → World → Option Process → Outcome × World
  unfolding abort_kill
  abort_start s pid w none = (failed, cleanup_state s w)
  abort_start s pid w (some p) =
      let w' = record w { processes = os.after_term w.processes; signalled = p ∷ w.signalled } in
      abort_kill s pid w' (find_process pid w'.processes)

  unfoldable pub finish_start : Request → World → Bool → Outcome × World
  unfolding abort_start find_process
  finish_start q w true =
      (started os.new_pid, record w { state_file = stored (state_of q "running") })
  finish_start q w false =
      abort_start (state_of q "starting") os.new_pid w (find_process os.new_pid w.processes)

  unfoldable pub launch : Request → List Poll → World → Outcome × World
  unfolding finish_start await_ready
  launch q polls w =
      finish_start q
        (record w {
          processes = os.after_start (process_of q ∷ w.processes);
          state_file = stored (state_of q "starting");
        })
        (await_ready q polls)

  -- `existing_identity == requested_identity`, after the host and the port are seen to be a text and a
  -- number.
  unfoldable pub is_same : Request → State → Bool
  is_same q s =
      is_string s.config_path q.config_path
      && is_string s.replay_dir q.replay_dir
      && is_string s.host q.host
      && is_number s.port q.port
      && is_string s.validation_id q.validation_id

  unfoldable pub start_owned : Request → List Poll → World → State → Owned → Outcome × World
  unfolding is_same launch cleanup_state
  start_owned q polls w s refused = (failed, w)
  start_owned q polls w s gone = launch q polls (cleanup_state s w)
  start_owned q polls w s (owned p) =
      if is_same q s then (already_running p.pid, w) else (failed, w)

  unfoldable pub start_file : Request → List Poll → World → StateFile → Outcome × World
  unfolding start_owned
  start_file q polls w absent = launch q polls w
  start_file q polls w unreadable = (failed, w)
  start_file q polls w (stored s) = start_owned q polls w s (owned_replay_pid os.script w s)

  unfoldable pub start_replay : Request → List Poll → World → Outcome × World
  unfolding start_file
  start_replay q polls w = start_file q polls w w.state_file
