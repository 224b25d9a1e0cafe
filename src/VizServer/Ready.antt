-- ===== src/VizServer/Ready.antt =====
-- `main` of the server and `write_ready_receipt`: the receipt while the server answers, and after.
use Prim.Native.String.{String}
use text.Mathlib.Text.{◌==◌ as str_eq, starts_with}
use maze_client.Prelude.{
  ℕ, Bool, true, false, ◌||◌, not, if◌then◌else◌, Option, none, some, List, [], ◌∷◌,
}

-- The receipt, before it is JSON.
pub record Payload : Type 0 where
  pub schema_version : ℕ
  pub source : String
  pub pid : ℕ
  pub instance_id : String
  pub replay_dir : String
  pub host : String
  pub port : ℕ

-- The ready file and the temporary file of a call, which has a random name: none before it. Other
-- files beside them are no part of the model.
pub record ReadyFolder : Type 0 where
  pub ready : Option Payload
  pub temporary : Option Payload

-- The options of the server that the receipt depends on.
pub record Options : Type 0 where
  pub dir : String
  pub host : String
  pub port : ℕ
  pub validation_id : String
  pub instance_id : String
  pub ready_file : String

-- The value of an option in pairs of names and values, the last if it comes twice.
unfoldable pub option_value : String → List String → Option String
option_value name [] = none
option_value name (n ∷ []) = none
option_value name (n ∷ value ∷ rest) =
    let later = option_value name rest in
    elim later [ some last ↦ some last | none ↦ if str_eq n name then some value else none ]

abbrev pub value_or : String → Option String → String
value_or default none = default
value_or default (some value) = value

-- A value begins with a dash. argparse takes it for an option, but for a dash alone, a negative number
-- and a text with a blank, which the model does not tell apart.
unfoldable pub has_dashed : List String → Bool
has_dashed [] = false
has_dashed (n ∷ []) = false
has_dashed (n ∷ value ∷ rest) = starts_with value "-" || has_dashed rest

-- The parsed command line; `int` reads the port, and `none` is its error.
unfoldable pub parse_options : (String → Option ℕ) → List String → Option Options
unfolding option_value has_dashed
parse_options int arguments =
    if has_dashed arguments
    then none
    else elim (int (value_or "9004" (option_value "--port" arguments))) [
      | none ↦ none
      | some port ↦ some (record {
        dir = value_or "log/viz" (option_value "--dir" arguments);
        host = value_or "127.0.0.1" (option_value "--host" arguments);
        port = port;
        validation_id = value_or "local-validation" (option_value "--validation-id" arguments);
        instance_id = value_or "" (option_value "--instance-id" arguments);
        ready_file = value_or "" (option_value "--ready-file" arguments);
      })
    ]

-- The paths and the process, as the operating system gives them, and which steps succeed.
pub record Host : Type 0 where
  pub abspath : String → String
  pub getpid : ℕ
  pub listed : Bool
  pub bound : Bool
  pub written : Bool

unfoldable pub payload_of : Host → String → String → String → ℕ → Payload
payload_of h instance_id replay_dir host port = record {
  schema_version = 1;
  source = "client-replay-ready";
  pid = h.getpid;
  instance_id = instance_id;
  replay_dir = h.abspath replay_dir;
  host = host;
  port = port;
}

-- The temporary file is gone afterwards, whether it was moved or its writing failed.
unfoldable pub write_ready_receipt : Bool → Payload → ReadyFolder → Bool × ReadyFolder
write_ready_receipt true p folder = (true, record { ready = some p; temporary = none })
write_ready_receipt false p folder = (false, record folder { temporary = none })

-- The `finally` of `main`.
unfoldable pub close_server : Options → ReadyFolder → ReadyFolder
close_server o folder = if str_eq o.ready_file "" then folder else record folder { ready = none }

-- The receipt of a server that has bound its socket; without a ready file there is none.
unfoldable pub announce : Host → Options → ReadyFolder → Bool × ReadyFolder
unfolding payload_of write_ready_receipt
announce h o folder =
    if str_eq o.ready_file ""
    then (true, folder)
    else write_ready_receipt h.written (payload_of h o.instance_id (h.abspath o.dir) o.host o.port)
        folder

-- What `main` does with a receipt that could not be written.
abbrev pub settle : Options → Bool × ReadyFolder → Bool × ReadyFolder
settle o (true, folder) = (true, folder)
settle o (false, folder) = (false, close_server o folder)

-- `bool(args.instance_id) != bool(args.ready_file)`
abbrev pub is_halved : Options → Bool
is_halved o =
    if str_eq o.instance_id "" then not (str_eq o.ready_file "") else str_eq o.ready_file ""

-- Up to `serve_forever`: whether the server answers.
unfoldable pub open_server : Host → Options → ReadyFolder → Bool × ReadyFolder
unfolding announce close_server
open_server h o folder =
    if is_halved o || not h.listed || not h.bound
    then (false, folder)
    else settle o (announce h o folder)

-- The whole of `main`: a server that answers is closed once it is stopped.
unfoldable pub serve : Host → Options → ReadyFolder → ReadyFolder
unfolding open_server close_server
serve h o folder =
    let (answers, opened) = open_server h o folder in
    if answers then close_server o opened else opened
