-- ===== src/VizServer/Http.antt =====
-- `VizHTTPHandler.do_GET`: the routes.
pub mod Bounds
use Prim.Native.String.{String}
use text.Mathlib.Text.{◌==◌ as str_eq, starts_with}
use maze_client.Prelude.{
  ℕ, Bool, true, false, ◌||◌, if◌then◌else◌, Option, none, some, List, length,
}
use maze_client.Prelude.Int.{ℤ, pos, negsuc, min_ℤ}
use maze_client.VizServer.Disk.{Disk, Server, Error, Item, Status, Page}
use maze_client.VizServer.Queries.{
  load_frames_paged, get_frame_count, get_file_status, list_files, load_map,
}

-- The path and the first value of each parameter.
pub record Request : Type 0 where
  pub path : String
  pub file : Option String
  pub id : Option String
  pub offset : Option String
  pub limit : Option String

-- What is sent: a page, an asset or a JSON value.
pub data Reply (F M : Type 0) : Type 0 where
  page not_found server_status raised : Reply F M
  asset : String → Reply F M
  files : Bool → List Item → Reply F M
  no_parameter : Reply F M
  failed : Error → Reply F M
  frames : (total : ℕ) (offset limit : ℤ) (sent : List F) → Reply F M
  frame_count : ℕ → Reply F M
  file_status : Status → Reply F M
  map_data : M → Reply F M

-- The status code of a JSON reply.
abbrev pub code_of : {F M : Type 0} → Reply F M → ℕ
code_of not_found = 404
code_of no_parameter = 400
code_of (failed e) = 404
code_of _ = 200

-- `not filename`: the parameter is missing or empty.
abbrev is_missing : Option String → Bool
is_missing none = true
is_missing (some text) = str_eq text ""

-- The text of a parameter that is not missing.
abbrev text_of : Option String → String
text_of none = ""
text_of (some text) = text

abbrev is_one_of : String → String → String → Bool
is_one_of path a b = str_eq path a || str_eq path b

-- The page parameters: the defaults if either is no number, and the cap on the frames of a reply.
unfoldable pub window_of : Option ℤ → Option ℤ → ℤ × ℤ
window_of (some offset) (some limit) = (offset, min_ℤ limit (pos 2000))
window_of (some offset) none = (pos 0, min_ℤ (pos 200) (pos 2000))
window_of none limit = (pos 0, min_ℤ (pos 200) (pos 2000))

-- The reply of the frames route to a page: its total, frames and error.
unfoldable pub frames_reply :
    {F M : Type 0} → ℤ → ℤ → ℕ → Option (List F) → Option Error → Reply F M
frames_reply offset limit total sent (some e) = failed e
frames_reply offset limit total none none = raised
frames_reply offset limit total (some sent) none = frames total offset limit sent

-- `error` is tested first.
unfoldable pub reply_of :
    {F M A : Type 0} → (A → Reply F M) → Option A × Option Error × Server M → Reply F M × Server M
reply_of send (value, some e, s) = (failed e, s)
reply_of send (none, none, s) = (raised, s)
reply_of send (some value, none, s) = (send value, s)

-- The reply to a listing, which may raise an exception.
unfoldable pub list_reply :
    {F M : Type 0}
    → (List Item → Reply F M)
    → Server M
    → Option (List Item × Server M)
    → Reply F M × Server M
list_reply send s none = (raised, s)
list_reply send s (some (items, s')) = (send items, s')

-- `int` gives `none` for the ValueError.
module _ {F M : Type 0} (int : String → Option ℤ) (disk : Disk F M) where
  -- `int(params.get(name, [default])[0])`
  abbrev number_of : Option String → String → Option ℤ
  number_of none default = int default
  number_of (some text) default = int text

  unfoldable pub get_frames : Request → Server M → Reply F M × Server M
  unfolding window_of frames_reply
  get_frames q s =
      let window = window_of (number_of q.offset "0") (number_of q.limit "200") in
      let (p, s') = load_frames_paged disk (text_of q.file) window.0 window.1 s in
      if is_missing q.file
      then (no_parameter, s)
      else (frames_reply window.0 window.1 p.total p.frames p.error, s')

  unfoldable pub get_count : Request → Server M → Reply F M × Server M
  get_count q s =
      if is_missing q.file
      then (no_parameter, s)
      else reply_of frame_count (get_frame_count disk (text_of q.file) s)

  unfoldable pub get_status : ℕ → Request → Server M → Reply F M × Server M
  get_status now q s =
      if is_missing q.file
      then (no_parameter, s)
      else reply_of file_status (get_file_status disk (text_of q.file) now s)

  unfoldable pub get_map : Request → Server M → Reply F M × Server M
  get_map q s =
      if is_missing q.id
      then (no_parameter, s)
      else reply_of map_data (load_map disk (text_of q.id) s)

  -- `named` tells the two routes of the list apart: the second puts it into an object.
  unfoldable pub get_files : ℕ → Bool → Server M → Reply F M × Server M
  unfolding list_reply
  get_files now named s = list_reply (files named) s (list_files disk now s)

  -- `get_status` raises an exception for a manifest that is no object.
  unfoldable pub get_service : ℕ → Server M → Reply F M × Server M
  unfolding list_reply
  get_service now s =
      list_reply (λ items. if disk.manifest_is_object then server_status else raised) s
        (list_files disk now s)

  -- The route of a path, and the answer; `raised` is an exception that ends the request.
  unfoldable pub do_get : ℕ → Request → Server M → Reply F M × Server M
  unfolding get_frames get_count get_status get_map get_files get_service
  do_get now q s =
      if is_one_of q.path "/" "/index.html"
      then (page, s)
      else if starts_with q.path "/assets/"
      then (asset q.path, s)
      else if is_one_of q.path "/api/files" "/api/client/files"
      then get_files now (str_eq q.path "/api/client/files") s
      else if is_one_of q.path "/api/frames" "/api/client/frames"
      then get_frames q s
      else if str_eq q.path "/api/frame_count"
      then get_count q s
      else if str_eq q.path "/api/file_status"
      then get_status now q s
      else if is_one_of q.path "/api/map" "/api/client/map"
      then get_map q s
      else if is_one_of q.path "/api/status" "/api/client/status"
      then get_service now s
      else (not_found, s)
