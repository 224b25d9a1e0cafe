-- ===== src/ReplayService/Handshake.antt =====
-- The server's receipt is the one that `_start_replay` waits for.
use Prim.Native.String.{String}
use text.Mathlib.Text.{◌==◌ as str_eq}
use text.Mathlib.TextPositions.{eq_refl}
use mathlib.Core.Option.{map as option_map}
use maze_client.Prelude.{
  ℕ, ◌≡◌, refl, ap, ◌∙◌, ==_iff, true, false, Option, none, some, List, [], ◌∷◌, ◌++◌,
}
use maze_client.Prelude.Int.{pos}
use maze_client.VizServer.Ready.{
  Payload, ReadyFolder, Options, Host, option_value, has_dashed, parse_options, payload_of,
  write_ready_receipt, announce, open_server,
}
use maze_client.ReplayService.Owner.{number, string, absent, stored, World}
use maze_client.ReplayService.Lifecycle.{
  Os, Request, Receipt, Poll, started, command_of, state_of, process_of, validate_ready_receipt,
  await_ready, finish_start, launch, start_file, start_replay,
}

-- The receipt as `json.loads` reads it.
abbrev pub receipt_of : Payload → Receipt
receipt_of p = record {
  schema_version = number (pos p.schema_version);
  source = string p.source;
  pid = number (pos p.pid);
  instance_id = string p.instance_id;
  replay_dir = string p.replay_dir;
  host = string p.host;
  port = number (pos p.port);
}

-- `sys.argv[1:]` of `python -u script *arguments`.
abbrev pub arguments_of : List String → List String
arguments_of (python ∷ unbuffered ∷ script ∷ arguments) = arguments
arguments_of _ = []

-- The options that the server reads from the command of a start.
abbrev pub options_of : Os → Request → Options
options_of os q = record {
  dir = q.replay_dir;
  host = q.host;
  port = q.port;
  validation_id = q.validation_id;
  instance_id = os.token;
  ready_file = os.ready_file;
}

parse_options-command_of :
    (int : String → Option ℕ) (os : Os) (q : Request)
    → has_dashed (arguments_of (command_of os q)) ≡ false
    → int (os.show q.port) ≡ some q.port
    → parse_options int (arguments_of (command_of os q)) ≡ some (options_of os q)
unfolding parse_options option_value
parse_options-command_of int os q plain shown = rw (parse_options, plain, shown) refl

-- The server that the command runs: its process, its directory, its options, of which none has a value
-- that begins with a dash, and that every step of it succeeds.
pub record IsServing (os : Os) (q : Request) (h : Host) : Type 0 where
  pub same_process : h.getpid ≡ os.new_pid
  pub absolute : h.abspath q.replay_dir ≡ q.replay_dir
  pub is_listed : h.listed ≡ true
  pub is_bound : h.bound ≡ true
  pub is_written : h.written ≡ true
  pub has_token : str_eq os.token "" ≡ false
  pub no_dash : has_dashed (arguments_of (command_of os q)) ≡ false
  pub has_ready_file : str_eq os.ready_file "" ≡ false

abbrev pub announced : Os → Request → Payload
announced os q = record {
  schema_version = 1;
  source = "client-replay-ready";
  pid = os.new_pid;
  instance_id = os.token;
  replay_dir = q.replay_dir;
  host = q.host;
  port = q.port;
}

payload_of-announced :
    (os : Os) (q : Request) (h : Host)
    → IsServing os q h
    → payload_of h os.token (h.abspath q.replay_dir) q.host q.port ≡ announced os q
unfolding payload_of
payload_of-announced os q h s = rw (payload_of, s.absolute, s.absolute, s.same_process) refl

open_server-announced :
    (os : Os) (q : Request) (h : Host) (folder : ReadyFolder)
    → IsServing os q h
    → open_server h (options_of os q) folder
      ≡ (true, record { ready = some (announced os q); temporary = none })
unfolding open_server announce write_ready_receipt
open_server-announced os q h folder s =
    rw
      (
        open_server,
        s.has_token,
        s.has_ready_file,
        s.is_listed,
        s.is_bound,
        s.is_written,
        payload_of-announced os q h s,
      )
      refl

validate_ready_receipt-announced :
    (os : Os) (q : Request)
    → validate_ready_receipt os q (some (receipt_of (announced os q))) ≡ true
unfolding validate_ready_receipt
validate_ready_receipt-announced os q =
    rw
      (
        (==_iff os.new_pid os.new_pid).1 refl,
        eq_refl os.token,
        eq_refl q.replay_dir,
        eq_refl q.host,
        (==_iff q.port q.port).1 refl,
      )
      refl

-- Rounds of the wait with no receipt, while the server runs.
abbrev pub AreWaiting : List Poll → Type 0
AreWaiting [] = Unit
AreWaiting (poll ∷ polls) = (poll.receipt ≡ none) × (poll.exited ≡ false) × AreWaiting polls

await_ready-receipt :
    (os : Os) (q : Request) (before after : List Poll) (poll : Poll)
    → AreWaiting before
    → validate_ready_receipt os q poll.receipt ≡ true
    → await_ready os q (before ++ poll ∷ after) ≡ true
unfolding await_ready
await_ready-receipt os q [] after poll waiting valid = rw valid refl
await_ready-receipt os q (first ∷ before) after poll (none_yet, runs, waiting) valid =
    rw (none_yet, runs) (await_ready-receipt os q before after poll waiting valid)

start_replay-awaited :
    (os : Os) (q : Request) (polls : List Poll) (w : World)
    → w.state_file ≡ absent
    → await_ready os q polls ≡ true
    → start_replay os q polls w ≡ (
      started os.new_pid,
      record w {
        processes = os.after_start (process_of os q ∷ w.processes);
        state_file = stored (state_of os q "running");
      },
    )
unfolding start_replay start_file launch finish_start
start_replay-awaited os q polls w idle ready =
    ap (start_file os q polls w) idle
    ∙ ap
        (finish_start os q (record w {
          processes = os.after_start (process_of os q ∷ w.processes);
          state_file = stored (state_of os q "starting");
        }))
        ready

-- What the wait reads once the server has opened.
abbrev pub receipt_in : ReadyFolder → Option Receipt
receipt_in folder = option_map receipt_of folder.ready

unfoldable pub read_server : Host → ReadyFolder → Option Options → Option Receipt
read_server h folder none = none
read_server h folder (some o) = receipt_in (open_server h o folder).1

read_server-announced :
    (int : String → Option ℕ) (os : Os) (q : Request) (h : Host) (folder : ReadyFolder)
    → int (os.show q.port) ≡ some q.port
    → IsServing os q h
    → read_server h folder (parse_options int (arguments_of (command_of os q)))
      ≡ some (receipt_of (announced os q))
unfolding read_server
read_server-announced int os q h folder shown s =
    ap (read_server h folder) (parse_options-command_of int os q s.no_dash shown)
    ∙ ap (λ o. receipt_in o.1) (open_server-announced os q h folder s)

-- With no service in the state file, a start succeeds as soon as one of the rounds before its
-- deadline, which follows only rounds without a receipt and with the server running, reads what the
-- server writes when it is run with the command of this very start. The server is the process that
-- was started, its directory is absolute, its steps succeed, no value of its options begins with a
-- dash, and the digits of the port give the port. The state file then names the server as running.
pub start_replay-Answered :
    (int : String → Option ℕ) (os : Os) (q : Request) (h : Host) (folder : ReadyFolder)
    (before after : List Poll) (poll : Poll) (w : World)
    → int (os.show q.port) ≡ some q.port
    → IsServing os q h
    → AreWaiting before
    → poll.receipt ≡ read_server h folder (parse_options int (arguments_of (command_of os q)))
    → w.state_file ≡ absent
    → start_replay os q (before ++ poll ∷ after) w ≡ (
      started os.new_pid,
      record w {
        processes = os.after_start (process_of os q ∷ w.processes);
        state_file = stored (state_of os q "running");
      },
    )
start_replay-Answered int os q h folder before after poll w shown s waiting answered idle =
    start_replay-awaited os q (before ++ poll ∷ after) w idle (
      await_ready-receipt os q before after poll waiting (
        ap (validate_ready_receipt os q)
          (answered ∙ read_server-announced int os q h folder shown s)
        ∙ validate_ready_receipt-announced os q))
