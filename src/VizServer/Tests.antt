-- ===== src/VizServer/Tests.antt =====
-- The line index on small files, and the theorems at inputs that meet their hypotheses.
use Prim.Native.String.{String}
use maze_client.Prelude.{
  ℕ, ◌+◌, ◌≡◌, inl, refl, true, false, if◌then◌else◌, Option, none, some, List, [], ◌∷◌, ◌++◌,
  length,
}
use maze_client.VizServer.LineIndex.{
  Entry, IndexCache, lines_of, index_lines, cache_get, build_line_index,
}
use text.Mathlib.Text.{◌==◌}
use maze_client.Prelude.Int.{ℤ, pos, negsuc}
use maze_client.VizServer.Queries.Paging.{both, load_frames_paged-both}
use maze_client.VizServer.Queries.Listing.{list_files-IsCounted}
use maze_client.VizServer.Queries.Maps.{load_map-again}
use maze_client.VizServer.Http.Bounds.{IsBounded, do_get-IsBounded}
use maze_client.VizServer.Disk.{Disk, Server, Item, frame, head, illegal_name}
use maze_client.VizServer.Queries.{index_of, load_frames_paged, load_map, list_files}
use maze_client.VizServer.Http.{Request, frames, do_get}
use maze_client.VizServer.LineIndex.Grow.{
  full_index, steady, entry_of, IsSynced, build_line_index-grown,
}
use maze_client.VizServer.LineIndex.Partial.{build_line_index-unfinished}

-- "{}\n" and "[]\n"
abbrev frame_bytes : List ℕ
frame_bytes = b'{' ∷ b'}' ∷ 10 ∷ []

abbrev frame_bytes' : List ℕ
frame_bytes' = b'[' ∷ b']' ∷ 10 ∷ []

abbrev indexed : IndexCache
indexed = ("a.jsonl", record { mtime = 1; size = 3; line_offsets = 0 ∷ [] }) ∷ []

-- An unfinished first line was indexed.
abbrev indexed_early : IndexCache
indexed_early = ("a.jsonl", record { mtime = 1; size = 1; line_offsets = 0 ∷ [] }) ∷ []

grown :
    (build_line_index "a.jsonl" (some (steady 2 (frame_bytes ++ frame_bytes'))) indexed).0
    ≡ 0 ∷ 3 ∷ []
unfolding build_line_index steady
grown = refl

-- One frame, and two offsets.
split : (build_line_index "a.jsonl" (some (steady 2 frame_bytes)) indexed_early).0 ≡ 0 ∷ 1 ∷ []
unfolding build_line_index steady
split = refl

found : cache_get "a.jsonl" indexed ≡ some (entry_of 1 frame_bytes)
unfolding cache_get full_index index_lines lines_of
found = refl

found_early : cache_get "a.jsonl" indexed_early ≡ some (entry_of 1 ([] ++ b'{' ∷ []))
unfolding cache_get full_index index_lines lines_of
found_early = refl

build_line_index-grown_example :
    IsSynced "a.jsonl" 2
      (frame_bytes ++ frame_bytes')
      (build_line_index "a.jsonl" (some (steady 2 (frame_bytes ++ frame_bytes'))) indexed)
build_line_index-grown_example =
    build_line_index-grown "a.jsonl" indexed 1 2 frame_bytes frame_bytes' found refl

absent : cache_get {V = Entry} "b.jsonl" [] ≡ none
unfolding cache_get
absent = refl

build_line_index-unfinished_example :
    (before : List ℕ) × (later : List ℕ) × (full_index (([] ++ b'{' ∷ []) ++ (b'}' ∷ [] ++ 10 ∷ []))
      ≡ before ++ length {A = ℕ} [] ∷ later)
    × ((build_line_index "a.jsonl"
          (some (steady 2 (([] ++ b'{' ∷ []) ++ (b'}' ∷ [] ++ 10 ∷ []))))
          indexed_early).0
        ≡ before ++ length {A = ℕ} [] ∷ (length {A = ℕ} [] + length {A = ℕ} (b'{' ∷ [])) ∷ later)
build_line_index-unfinished_example =
    build_line_index-unfinished [] (b'{' ∷ []) (b'}' ∷ []) [] "a.jsonl" indexed_early 1 2 tt
      ((refl, tt), refl) ((refl, tt), refl) found_early

abbrev disk : Disk ℕ ℕ
disk = record {
  listing = "a.jsonl" ∷ [];
  exists_file = λ name. true;
  stat_file = λ name. some (2, 6);
  answer = λ name. some (steady 2 (frame_bytes ++ frame_bytes'));
  opens = λ name. true;
  line_at = λ name at. frame at;
  head_at = λ name at. head 7 "maze_1";
  exists_map = λ map_id. true;
  read_map = λ map_id. some 5;
  manifest_is_object = true;
}

abbrev started : Server ℕ
started = record { index_cache = []; map_cache = []; file_list = none; file_list_time = 0 }

-- Both frames, and the last one alone, which the negative offset counts from the end.
two_frames :
    (load_frames_paged disk "a.jsonl" (pos 0) (pos 200) started).0.frames ≡ some (0 ∷ 3 ∷ [])
unfolding load_frames_paged steady
two_frames = refl

last_frame : (load_frames_paged disk "a.jsonl" (negsuc 0) (pos 1) started).0.frames ≡ some (3 ∷ [])
unfolding load_frames_paged steady
last_frame = refl

outside :
    (load_frames_paged disk "../a.jsonl" (pos 0) (pos 200) started).0.error ≡ some illegal_name
unfolding load_frames_paged steady
outside = refl

-- From the last frame on to the second: the last one comes twice.
wrapped :
    (load_frames_paged disk "a.jsonl" (negsuc 0) (pos 200) started).0.frames ≡ some (3 ∷ 0 ∷ 3 ∷ [])
unfolding load_frames_paged steady
wrapped = refl

abbrev item : Item
item = record {
  name = "a.jsonl";
  episode = some (7, "maze_1");
  frame_count = 2;
  size_bytes = 6;
  modified = 2;
  is_growing = true;
}

abbrev listed_server : Server ℕ
listed_server = record {
  index_cache = ("a.jsonl", record { mtime = 2; size = 6; line_offsets = 0 ∷ 3 ∷ [] }) ∷ [];
  map_cache = [];
  file_list = some (item ∷ []);
  file_list_time = 5;
}

listed : list_files disk 5 started ≡ some (item ∷ [], listed_server)
unfolding list_files steady
listed = refl

list_files-IsCounted_example : 2 ≡ length (index_of disk "a.jsonl" listed_server).0
list_files-IsCounted_example =
    list_files-IsCounted disk 5 started listed_server (item ∷ []) item refl listed (inl refl)

load_frames_paged-both_example :
    ((load_frames_paged disk "a.jsonl" (pos 0) (pos (1 + 1)) started).0.frames
      ≡ both
          (load_frames_paged disk "a.jsonl" (pos 0) (pos 1) started).0.frames
          (load_frames_paged disk "a.jsonl"
            (pos (0 + 1))
            (pos 1)
            (load_frames_paged disk "a.jsonl" (pos 0) (pos 1) started).1).0.frames)
    × ((load_frames_paged disk "a.jsonl"
          (pos (0 + 1))
          (pos 1)
          (load_frames_paged disk "a.jsonl" (pos 0) (pos 1) started).1).0.total
        ≡ (load_frames_paged disk "a.jsonl" (pos 0) (pos 1) started).0.total)
load_frames_paged-both_example = load_frames_paged-both disk "a.jsonl" 0 1 1 started

-- The file of the map is gone after the first call.
abbrev emptied : Disk ℕ ℕ
emptied = record disk { exists_map = λ map_id. false }

map_loaded : (load_map disk "maze_1" started).0 ≡ some 5
unfolding load_map
map_loaded = refl

load_map-again_example :
    load_map emptied "maze_1" (load_map disk "maze_1" started).2
    ≡ (some 5, none, (load_map disk "maze_1" started).2)
load_map-again_example = load_map-again disk emptied "maze_1" 5 started map_loaded

abbrev frames_request : Request
frames_request = record {
  path = "/api/frames";
  file = some "a.jsonl";
  id = none;
  offset = none;
  limit = some "99999";
}

-- `int`, on the texts of the request.
abbrev int_of : String → Option ℤ
int_of text = if text == "0" then some (pos 0) else some (pos 99999)

both_sent :
    (do_get int_of disk 0 frames_request started).0 ≡ frames 2 (pos 0) (pos 2000) (0 ∷ 3 ∷ [])
unfolding do_get steady load_frames_paged
both_sent = refl

do_get-IsBounded_example : IsBounded (do_get int_of disk 0 frames_request started).0
do_get-IsBounded_example = do_get-IsBounded int_of disk 0 frames_request started
