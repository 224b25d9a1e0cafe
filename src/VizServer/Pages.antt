-- ===== src/VizServer/Pages.antt =====
-- `_serve_html`, `_serve_asset` and `get_status`: the answers that `do_GET` leaves to them.
use Prim.Native.String.{String, ◌++◌ as append, len, slice}
use text.Mathlib.Text.{◌==◌ as str_eq, starts_with}
use maze_client.Prelude.{◌>>=◌, ℕ, Bool, ◌||◌, if◌then◌else◌, Option, none, some, List, length}
use maze_client.VizServer.Disk.{Disk, Server, Item, is_unsafe}
use maze_client.VizServer.Queries.{list_files}

-- The folder of the pages, and what `mimetypes` guesses of a name.
pub record Web : Type 0 where
  pub has_page : Bool
  pub read_page : Option (List ℕ)
  pub read_asset : String → Option (List ℕ)
  pub guess_type : String → Option String

-- What goes to the browser: nothing after an error that is passed over, or a type and a body.
pub data Sent : Type 0 where
  nothing not_found : Sent
  sent : String → List ℕ → Sent

unfoldable pub serve_html : Web → Sent
serve_html web =
    if web.has_page
    then elim web.read_page [
      | none ↦ nothing
      | some content ↦ sent "text/html; charset=utf-8" content
    ]
    else not_found

-- The character set is named for texts and scripts.
abbrev pub with_charset : String → String
with_charset content_type =
    if starts_with content_type "text/" || str_eq content_type "application/javascript"
    then append content_type "; charset=utf-8"
    else content_type

abbrev pub type_or_default : Option String → String
type_or_default none = "application/octet-stream"
type_or_default (some content_type) =
    if str_eq content_type "" then "application/octet-stream" else content_type

unfoldable pub serve_asset : Web → String → Sent
serve_asset web relative_path =
    if str_eq relative_path "" || is_unsafe relative_path
    then not_found
    else elim (web.read_asset relative_path) [
      | none ↦ not_found
      | some content ↦ sent (with_charset (type_or_default (web.guess_type relative_path))) content
    ]

-- `path[len("/assets/"):]`
abbrev pub asset_name : String → String
asset_name path = slice path (len "/assets/") (len path)

-- The server's settings, and the two files of the validation, over a type of JSON values. `get` gives
-- the empty object for a key that is missing, and `none` where the value is no object.
pub record Settings (J : Type 0) : Type 0 where
  pub mode : String
  pub validation_id : String
  pub replay_dir : String
  pub manifest : Option J
  pub client_result : Option J
  pub empty : J
  pub get : J → String → Option J

pub record Report (J : Type 0) : Type 0 where
  pub schema_version : ℕ
  pub mode : String
  pub validation_id : String
  pub source : String
  pub model : J
  pub parameters : J
  pub client_result : J
  pub replay_dir : String
  pub file_count : ℕ
  pub cached_files : ℕ
  pub cached_maps : ℕ

-- `_load_optional_json`: an empty object for a file that cannot be read or is no JSON.
unfoldable pub load_optional_json : {J : Type 0} → J → Option J → J
load_optional_json empty none = empty
load_optional_json empty (some value) = value

module _ {F M J : Type 0} (disk : Disk F M) (settings : Settings J) where
  unfoldable pub report_of : List Item × Server M → Option (Report J × Server M)
  unfolding load_optional_json
  report_of (file_list, s) = do
    let manifest = load_optional_json settings.empty settings.manifest
    let client_result = load_optional_json settings.empty settings.client_result
    model ← settings.get manifest "model"
    parameters ← settings.get manifest "parameters"
    let report : Report J = record {
      schema_version = 1;
      mode = settings.mode;
      validation_id = settings.validation_id;
      source = "client-replay";
      model = model;
      parameters = parameters;
      client_result = client_result;
      replay_dir = settings.replay_dir;
      file_count = length file_list;
      cached_files = length s.index_cache;
      cached_maps = length s.map_cache;
    }
    some (report, s)

  -- `none` is an exception, of the listing or of a manifest that is no object.
  unfoldable pub get_status : ℕ → Server M → Option (Report J × Server M)
  unfolding report_of
  get_status now s = list_files disk now s >>= report_of
