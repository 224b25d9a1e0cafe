-- ===== src/ReplayService/Tests.antt =====
-- The replay service on a small machine, and the theorems at inputs that meet their hypotheses.
use maze_client.Prelude.{◌≡◌, refl, false, none, some, List, [], ◌∷◌, ◌∈◌, ◌⊎◌, inl}
use maze_client.Prelude.Int.{pos}
use maze_client.ReplayService.Owner.{
  absent, stored, World, number, string, find_process, owned_replay_pid,
}
use maze_client.ReplayService.Lifecycle.{
  Os, Request, Receipt, Poll, started, stopped, already_running, failed, process_of, state_of,
  start_replay, stop_replay,
}
use maze_client.ReplayService.Stop.{IsEnded, stop_replay-IsEnded}
use maze_client.ReplayService.Signals.{IsOwn, stop_replay-OnlyOwn}
use maze_client.ReplayService.Restart.{start_replay-again}

-- Signals end every process.
abbrev pub os : Os
os = record {
  python = "python3";
  script = "maze_viz_server.py";
  show = λ n. "9004";
  new_pid = 41;
  token = "a1";
  ready_file = "ready-a1.json";
  signal_denied = false;
  after_start = λ ps. ps;
  after_term = λ ps. [];
  after_kill = λ ps. [];
}

abbrev pub request : Request
request = record {
  config_path = "client.yaml";
  replay_dir = "log/viz";
  host = "127.0.0.1";
  port = 9004;
  validation_id = "local";
}

abbrev receipt : Receipt
receipt = record {
  schema_version = number (pos 1);
  source = string "client-replay-ready";
  pid = number (pos 41);
  instance_id = string "a1";
  replay_dir = string "log/viz";
  host = string "127.0.0.1";
  port = number (pos 9004);
}

-- Nothing yet, and then the receipt.
abbrev pub polls : List Poll
polls =
    record { receipt = none; exited = false }
    ∷ record { receipt = some receipt; exited = false }
    ∷ []

abbrev pub idle : World
idle = record { processes = []; state_file = absent; ready_files = []; signalled = [] }

abbrev pub running : World
running = record {
  processes = process_of os request ∷ [];
  state_file = stored (state_of os request "running");
  ready_files = [];
  signalled = [];
}

-- The process with the id of the state runs something else.
abbrev reused : World
reused = record running {
  processes = record { pid = 41; command = some ("vim" ∷ "notes" ∷ []) } ∷ [];
}

starts : start_replay os request polls idle ≡ (started 41, running)
unfolding start_replay
starts = refl

times_out : (start_replay os request [] idle).0 ≡ failed
unfolding start_replay
times_out = refl

stops : (stop_replay os running).0 ≡ stopped 41
unfolding stop_replay owned_replay_pid
stops = refl

refuses : stop_replay os reused ≡ (failed, reused)
unfolding stop_replay owned_replay_pid
refuses = refl

signalled : process_of os request ∈ (stop_replay os running).1.signalled
unfolding stop_replay owned_replay_pid
signalled = inl refl

begun : (start_replay os request polls idle).0 ≡ started 41
unfolding start_replay
begun = refl

live :
    find_process 41 (start_replay os request polls idle).1.processes ≡ some (process_of os request)
unfolding start_replay find_process
live = refl

stop_replay-IsEnded_example : IsEnded (stop_replay os running)
stop_replay-IsEnded_example = stop_replay-IsEnded os running

stop_replay-OnlyOwn_example :
    (process_of os request ∈ running.signalled)
    ⊎ IsOwn os.script (state_of os request "running") (process_of os request)
stop_replay-OnlyOwn_example =
    stop_replay-OnlyOwn os running (state_of os request "running") refl (process_of os request)
      signalled

start_replay-again_example :
    start_replay os request [] (start_replay os request polls idle).1
    ≡ (already_running 41, (start_replay os request polls idle).1)
start_replay-again_example =
    start_replay-again os os request polls [] idle 40 41 refl refl refl begun live
