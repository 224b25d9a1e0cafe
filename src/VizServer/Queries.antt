-- ===== src/VizServer/Queries.antt =====
-- `VizReplayServer`: the queries on replay files and maps.
pub mod Settled
pub mod Paging
pub mod Listing
pub mod Maps
use Prim.Native.String.{String}
use text.Mathlib.Text.{find?}
use maze_client.Prelude.{
  ℕ, zero, suc, ◌+◌, ◌-◌, ltb, leb, Bool, true, false, ◌&&◌, ◌||◌, not, if◌then◌else◌, Option, none,
  some, List, [], ◌∷◌, ◌++◌, map, length, get_elem?,
}
use maze_client.Prelude.Int.{ℤ, pos, negsuc, ◌+ℤ◌, ◌-ℤ◌, leb_ℤ, min_ℤ, to_ℕ}
use maze_client.VizServer.LineIndex.{
  Answer, Entry, IndexCache, cache_get, cache_put, build_line_index,
}
use maze_client.VizServer.Disk.{
  Disk, Error, Head, Item, Line, Page, Server, Status, blank, frame, head, illegal_name, index_at,
  invalid, is_recent, is_unsafe, no_file, no_map, no_stat, raised, skipped, unread_file, unread_map,
  unreadable,
}

-- The frames of a line, in front of those of the lines after it.
unfoldable pub add_line : {F : Type 0} → Line F → Option (List F) → Option (List F)
add_line unreadable rest = none
add_line blank rest = rest
add_line invalid rest = rest
add_line (frame f) none = none
add_line (frame f) (some rest) = some (f ∷ rest)

-- The three results for a valid name: past the end, an exception while reading, and the frames.
unfoldable pub finish_page : {F : Type 0} → ℕ → Bool → Option (List F) → Page F
finish_page total true read = record { frames = some []; total = total; error = none }
finish_page total false none = record { frames = none; total = total; error = some unread_file }
finish_page total false (some frames) = record { frames = some frames; total = total; error = none }

module _ {F M : Type 0} (disk : Disk F M) where
  unfoldable pub validate_filename : String → Option Error
  validate_filename filename =
      if is_unsafe filename
      then some illegal_name
      else if not (disk.exists_file filename)
      then some no_file
      else none

  -- `_build_line_index` on the server's cache.
  unfoldable pub index_of : String → Server M → List ℕ × Server M
  unfolding build_line_index
  index_of filename s =
      let (line_offsets, cache) = build_line_index filename (disk.answer filename) s.index_cache in
      (line_offsets, record s { index_cache = cache })

  unfoldable pub get_frame_count : String → Server M → Option ℕ × Option Error × Server M
  unfolding validate_filename index_of
  get_frame_count filename s =
      let (line_offsets, s') = index_of filename s in
      elim (validate_filename filename) [
        | some e ↦ (none, some e, s)
        | none ↦ (some (length line_offsets), none, s')
      ]

  -- `for i in range(offset, end)`, with the rounds left; `none` is an exception.
  unfoldable pub read_frames : String → List ℕ → ℕ → ℤ → Option (List F)
  unfolding add_line
  read_frames filename line_offsets zero i = some []
  read_frames filename line_offsets (suc left) i =
      let rest = read_frames filename line_offsets left (i +ℤ pos 1) in
      elim (index_at line_offsets i) [
        | none ↦ none
        | some at ↦ add_line (disk.line_at filename at) rest
      ]

  -- The part of `load_frames_paged` after the index.
  unfoldable pub page_of : String → List ℕ → ℤ → ℤ → Page F
  unfolding read_frames finish_page
  page_of filename line_offsets offset limit =
      let total = length line_offsets in
      let end = min_ℤ (offset +ℤ limit) (pos total) in
      let read = read_frames filename line_offsets (to_ℕ (end -ℤ offset)) offset in
      finish_page total (leb_ℤ (pos total) offset) (if disk.opens filename then read else none)

  unfoldable pub load_frames_paged : String → ℤ → ℤ → Server M → Page F × Server M
  unfolding validate_filename index_of page_of
  load_frames_paged filename offset limit s =
      let (line_offsets, s') = index_of filename s in
      elim (validate_filename filename) [
        | some e ↦ (record { frames = none; total = 0; error = some e }, s)
        | none ↦ (page_of filename line_offsets offset limit, s')
      ]

  unfoldable pub get_file_status : String → ℕ → Server M → Option Status × Option Error × Server M
  unfolding validate_filename index_of
  get_file_status filename now s =
      let (line_offsets, s') = index_of filename s in
      elim (validate_filename filename) [
        | some e ↦ (none, some e, s)
        | none ↦ elim (disk.stat_file filename) [
          | none ↦ (none, some no_stat, s)
          | some (modified, size) ↦ (
            some (record {
              total_lines = length line_offsets;
              size_bytes = size;
              is_growing = is_recent now modified;
              last_modified = modified;
            }),
            none,
            s',
          )
        ]
      ]

  -- The entry of a file, with the episode and the map of its first frame.
  abbrev item_of : ℕ → String → ℕ × ℕ → List ℕ → Option (ℕ × String) → Item
  item_of now name (modified, size) line_offsets episode = record {
    name = name;
    episode = episode;
    frame_count = length line_offsets;
    size_bytes = size;
    modified = modified;
    is_growing = is_recent now modified;
  }

  -- `none` is an exception that the loop does not catch; `some none` leaves the file out.
  unfoldable pub describe_head : ℕ → String → ℕ × ℕ → List ℕ → Head → Option (Option Item)
  describe_head now name stat line_offsets (head episode map_id) =
      some (some (item_of now name stat line_offsets (some (episode, map_id))))
  describe_head now name stat line_offsets skipped = some none
  describe_head now name stat line_offsets raised = none

  unfoldable pub describe : ℕ → String → ℕ × ℕ → List ℕ → Option (Option Item)
  unfolding describe_head
  describe now name stat [] = some (some (item_of now name stat [] none))
  describe now name stat (first ∷ later) =
      describe_head now name stat (first ∷ later) (disk.head_at name first)

  -- `result.append`, for a file that is not left out.
  unfoldable pub append_item : Option Item → List Item → List Item
  append_item none items = items
  append_item (some item) items = items ++ item ∷ []

  -- The loop of `list_files`, with its result so far.
  unfoldable pub list_loop : ℕ → List String → List Item → Server M → Option (List Item × Server M)
  unfolding index_of describe append_item
  list_loop now [] items s = some (items, s)
  list_loop now (name ∷ names) items s =
      let (line_offsets, s') = index_of name s in
      elim (disk.stat_file name) [
        | none ↦ list_loop now names items s
        | some stat ↦ elim (describe now name stat line_offsets) [
          | none ↦ none
          | some item ↦ list_loop now names (append_item item items) s'
        ]
      ]

  -- The list and its time go into the cache.
  unfoldable pub keep_list : ℕ → Option (List Item × Server M) → Option (List Item × Server M)
  keep_list now none = none
  keep_list now (some (items, s)) =
      some (items, record s { file_list = some items; file_list_time = now })

  -- The list kept from before, for two seconds, or a new one.
  unfoldable pub serve_list : ℕ → Server M → Option (List Item) → Option (List Item × Server M)
  unfolding list_loop keep_list
  serve_list now s none = keep_list now (list_loop now disk.listing [] s)
  serve_list now s (some items) =
      let listed = keep_list now (list_loop now disk.listing [] s) in
      if ltb (now - s.file_list_time) 2000 then some (items, s) else listed

  unfoldable pub list_files : ℕ → Server M → Option (List Item × Server M)
  unfolding serve_list
  list_files now s = serve_list now s s.file_list

  unfoldable pub load_map : String → Server M → Option M × Option Error × Server M
  unfolding cache_get cache_put
  load_map map_id s =
      if is_unsafe map_id
      then (none, some illegal_name, s)
      else elim (cache_get map_id s.map_cache) [
        | some m ↦ (some m, none, s)
        | none ↦
            if not (disk.exists_map map_id)
            then (none, some no_map, s)
            else elim (disk.read_map map_id) [
              | none ↦ (none, some unread_map, s)
              | some m ↦ (some m, none, record s { map_cache = cache_put map_id m s.map_cache })
            ]
      ]
