-- ===== src/ReplayService/Command/Tests.antt =====
-- The command on a small machine, and the theorems at inputs that meet their hypotheses.
use Prim.Native.String.{String}
use maze_client.Prelude.{
  ℕ, ◌≡◌, refl, ◌==◌, true, false, ◌||◌, if◌then◌else◌, Option, none, some, List, [], ◌∷◌, ◌++◌,
}
use maze_client.Prelude.Int.{pos}
use maze_client.Prelude.Text.{chars, Text, same}
use maze_client.ReplayService.Config.{strip_inline_comment, strip_quotes, parse_port}
use maze_client.ReplayService.Settings.{read_viz_config}
use maze_client.VizServer.Ready.{has_dashed, Host, ReadyFolder, parse_options}
use maze_client.ReplayService.Owner.{World, stored}
use maze_client.ReplayService.Lifecycle.{
  Request, process_of, state_of, Poll, started, failed, command_of, start_replay,
}
use maze_client.ReplayService.Tests.{os, request, polls, idle, running}
use maze_client.ReplayService.Command.{
  absent, regular, Machine, Arguments, resolve_replay_config, main, public_url,
}
use maze_client.ReplayService.Command.Usable.{IsUsable, resolve_replay_config-IsUsable}
use maze_client.ReplayService.Command.Cases.{IsRequest, main-IsStarted}
use maze_client.ReplayService.Handshake.{
  IsServing, read_server, arguments_of, start_replay-Answered,
}
use maze_client.ReplayService.ProcessTable.{
  alive, no_process, no_file, not_run, parts, exited, process_is_live, process_command,
}
use maze_client.ReplayService.ProcessTable.Agree.{process_is_live-agree}

abbrev config_lines : List Text
config_lines = chars "viz:" ∷ chars "  output_dir: /log" ∷ chars "  server_port: 9004" ∷ []

-- Every path is absolute, and the configuration is `/c`.
abbrev machine : Machine
unfolding same
machine = record {
  cwd = chars "/";
  expanduser = λ path. path;
  is_absolute = λ path. true;
  join = λ folder path. folder ++ path;
  resolve = λ path. path;
  parent = λ path. chars "/";
  normal = λ path. path;
  kind = λ path. if same path (chars "/c") || same path (chars "/s") then regular else absent;
  lines = λ path. some config_lines;
  int = λ text. if same text (chars "9004") then some (pos 9004) else none;
  isspace = λ c. c == 32;
  string_of = λ text. if same text (chars "/log") then "/log" else "text";
  state_dir = none;
  default_state_dir = chars "/tmp";
  server_script = chars "/s";
}

abbrev arguments : Arguments
arguments = record {
  config = chars "/c";
  replay_dir = none;
  replay_port = none;
  host = chars "localhost";
  validation_id = chars "local";
}

resolves :
    resolve_replay_config machine (chars "/c") none none ≡ some (chars "/c", chars "/log", 9004)
unfolding resolve_replay_config same read_viz_config strip_inline_comment strip_quotes parse_port
resolves = refl

mixed :
    main machine (λ args. some arguments) os polls ("-stop" ∷ "--host" ∷ []) idle ≡ (failed, idle)
unfolding main
mixed = refl

url : public_url "::" "9004" ≡ "http://127.0.0.1:9004/"
unfolding public_url
url = refl

url6 : public_url "::1" "9004" ≡ "http://[::1]:9004/"
unfolding public_url
url6 = refl

zombie :
    process_is_live (pos 7) (record {
      signal = alive;
      stat = parts ("7" ∷ "(python3)" ∷ "Z" ∷ []);
      ps_status = not_run;
      signal_again = alive;
    })
    ≡ some false
unfolding process_is_live
zombie = refl

gone :
    process_command
      (pos 7)
      no_file
      (exited 1 "")
      (record { signal = no_process; stat = no_file; ps_status = not_run; signal_again = alive })
    ≡ some []
unfolding process_command
gone = refl

resolve_replay_config-IsUsable_example :
    IsUsable machine (chars "/c") (chars "/c", chars "/log", 9004)
resolve_replay_config-IsUsable_example =
    resolve_replay_config-IsUsable machine (chars "/c") none none (chars "/c", chars "/log", 9004)
      resolves

-- A machine whose texts are those of the receipt that comes.
abbrev answering : Machine
unfolding same
answering = record machine {
  string_of = λ text.
      if same text (chars "/log")
      then "log/viz"
      else if same text (chars "localhost")
      then "127.0.0.1"
      else "local";
}

abbrev asked : Request
asked = record {
  config_path = "local";
  replay_dir = "log/viz";
  host = "127.0.0.1";
  port = 9004;
  validation_id = "local";
}

abbrev served : World
served = record idle {
  processes = process_of os asked ∷ [];
  state_file = stored (state_of os asked "running");
}

begins : main answering (λ args. some arguments) os polls [] idle ≡ (started 41, served)
unfolding main same read_viz_config strip_inline_comment strip_quotes parse_port start_replay
begins = refl

main-IsStarted_example :
    (q : Request) × ((a : Arguments) × (some arguments ≡ some a) × IsRequest answering a q)
    × (41 ≡ os.new_pid)
    × (served.state_file ≡ stored (state_of os q "running"))
main-IsStarted_example =
    main-IsStarted answering (λ args. some arguments) os polls [] idle served 41 begins

-- The server of the start, and its answer in the second round.
abbrev host : Host
host = record { abspath = λ path. path; getpid = 41; listed = true; bound = true; written = true }

abbrev no_receipt : ReadyFolder
no_receipt = record { ready = none; temporary = none }

abbrev read_port : String → Option ℕ
read_port digits = some 9004

abbrev answer : Poll
answer = record {
  receipt =
      read_server host no_receipt (parse_options read_port (arguments_of (command_of os request)));
  exited = false;
}

abbrev waiting : Poll
waiting = record { receipt = none; exited = false }

serving : IsServing os request host
serving = record {
  same_process = refl;
  absolute = refl;
  is_listed = refl;
  is_bound = refl;
  is_written = refl;
  has_token = refl;
  no_dash = unfold has_dashed in refl;
  has_ready_file = refl;
}

start_replay-Answered_example :
    start_replay os request (waiting ∷ answer ∷ []) idle ≡ (started 41, running)
start_replay-Answered_example =
    start_replay-Answered read_port os request host no_receipt (waiting ∷ []) [] answer idle refl
      serving (refl, refl, tt) refl refl

process_is_live-agree_example :
    process_is_live (pos 7) (record {
      signal = alive;
      stat = parts ("7" ∷ "(python3)" ∷ "S" ∷ "1" ∷ []);
      ps_status = not_run;
      signal_again = alive;
    })
    ≡ process_is_live (pos 7) (record {
      signal = alive;
      stat = no_file;
      ps_status = exited 0 "Ss+";
      signal_again = alive;
    })
process_is_live-agree_example = process_is_live-agree 6 alive "7" "(python3)" "S" ("1" ∷ []) "s+"
