-- ===== src/VizServer/Disk.antt =====
-- The file system and the server's state, as the queries see them.
use Prim.Native.String.{String}
use text.Mathlib.Text.{find?}
use maze_client.Prelude.{
  ℕ, ◌+◌, ◌-◌, ltb, Bool, true, false, ◌||◌, if◌then◌else◌, Option, none, some, List, length,
  get_elem?,
}
use maze_client.Prelude.Int.{ℤ, pos, negsuc}
use maze_client.VizServer.LineIndex.{Answer, IndexCache}

-- What `readline`, `strip` and `json.loads` make of the line at an offset; `unreadable` is any other
-- exception than a JSONDecodeError.
pub data Line (F : Type 0) : Type 0 where
  blank invalid unreadable : Line F
  frame : F → Line F

-- The first frame of a file, as `list_files` reads it: its episode and map, an OSError or
-- JSONDecodeError, or another exception.
pub data Head : Type 0 where
  head : ℕ → String → Head
  skipped raised : Head

pub data Error : Type 0 where
  illegal_name no_file no_stat no_map unread_file unread_map : Error

-- The file system during a call, over the types of frames and of maps.
pub record Disk (F M : Type 0) : Type 0 where
  pub listing : List String
  pub exists_file : String → Bool
  -- `os.stat`: the time and the size.
  pub stat_file : String → Option (ℕ × ℕ)
  pub answer : String → Option Answer
  pub opens : String → Bool
  pub line_at : String → ℕ → Line F
  pub head_at : String → ℕ → Head
  pub exists_map : String → Bool
  pub read_map : String → Option M
  -- What `validation-manifest.json` holds is an object, or it cannot be read.
  pub manifest_is_object : Bool

pub record Item : Type 0 where
  pub name : String
  pub episode : Option (ℕ × String)
  pub frame_count : ℕ
  pub size_bytes : ℕ
  pub modified : ℕ
  pub is_growing : Bool

pub record Server (M : Type 0) : Type 0 where
  pub index_cache : IndexCache
  pub map_cache : List (String × M)
  pub file_list : Option (List Item)
  pub file_list_time : ℕ

-- `a in name`
abbrev pub contains : String → String → Bool
contains name a = elim (find? name a) [ none ↦ false | some i ↦ true ]

abbrev pub is_unsafe : String → Bool
is_unsafe name = contains name ".." || contains name "/" || contains name "\\"

-- `xs[i]`, which counts from the end where `i` is negative; `none` is the IndexError.
abbrev pub index_at : List ℕ → ℤ → Option ℕ
index_at xs (pos i) = get_elem? xs i
index_at xs (negsuc i) = if ltb i (length xs) then get_elem? xs (length xs - (i + 1)) else none

pub record Page (F : Type 0) : Type 0 where
  pub frames : Option (List F)
  pub total : ℕ
  pub error : Option Error

pub record Status : Type 0 where
  pub total_lines : ℕ
  pub size_bytes : ℕ
  pub is_growing : Bool
  pub last_modified : ℕ

-- The clock, in thousandths of a second.
abbrev pub is_recent : ℕ → ℕ → Bool
is_recent now modified = ltb (now - modified) 10000
