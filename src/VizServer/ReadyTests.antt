-- ===== src/VizServer/ReadyTests.antt =====
-- The server's receipt and pages on small inputs.
use maze_client.Prelude.{◌≡◌, ◌⊎◌, refl, true, false, none, some, [], ◌∷◌}
use maze_client.VizServer.Ready.{Options, Host, ReadyFolder, open_server, serve}
use maze_client.VizServer.Closed.{serve-IsClosed}
use maze_client.VizServer.Pages.{Web, sent, not_found, serve_asset, asset_name}

-- A server with a ready file, which can be written.
abbrev ready_options : Options
ready_options = record {
  dir = "log/viz";
  host = "127.0.0.1";
  port = 9004;
  validation_id = "local";
  instance_id = "a1";
  ready_file = "ready.json";
}

abbrev ready_host : Host
ready_host = record {
  abspath = λ path. path;
  getpid = 7;
  listed = true;
  bound = true;
  written = true;
}

abbrev no_receipt : ReadyFolder
no_receipt = record { ready = none; temporary = none }

opens : (open_server ready_host ready_options no_receipt).0 ≡ true
unfolding open_server
opens = refl

halved : (open_server ready_host (record ready_options { ready_file = "" }) no_receipt).0 ≡ false
unfolding open_server
halved = refl

-- The pages on a folder with one script.
abbrev web : Web
web = record {
  has_page = false;
  read_page = none;
  read_asset = λ name. some (1 ∷ []);
  guess_type = λ name. some "application/javascript";
}

sends :
    serve_asset web (asset_name "/assets/a.js")
    ≡ sent "application/javascript; charset=utf-8" (1 ∷ [])
unfolding serve_asset
sends = refl

refuses_path : serve_asset web "../a.js" ≡ not_found
unfolding serve_asset
refuses_path = refl

serve-IsClosed_example :
    (serve ready_host ready_options no_receipt ≡ no_receipt)
    ⊎ (((serve ready_host ready_options no_receipt).ready ≡ none)
        × ((serve ready_host ready_options no_receipt).temporary ≡ none))
serve-IsClosed_example = serve-IsClosed ready_host ready_options no_receipt
