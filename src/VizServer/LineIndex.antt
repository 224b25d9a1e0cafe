-- ===== src/VizServer/LineIndex.antt =====
-- `_build_line_index`: the byte offsets of the lines of a replay file, kept while it grows.
pub mod Scan
pub mod Grow
pub mod Partial
use Prim.Native.String.{String}
use text.Mathlib.Text.{◌==◌ as str_eq}
use maze_client.Prelude.{
  ℕ, zero, suc, ◌+◌, ◌≤◌, ◌==◌, leb, Bool, true, false, ◌&&◌, ◌||◌, not, if◌then◌else◌, Option,
  none, some, List, [], ◌∷◌, ◌++◌, length,
}

-- The whitespace that `bytes.strip` removes.
abbrev pub is_space : ℕ → Bool
is_space c = c == 32 || leb 9 c && leb c 13

-- `not line.strip()`
abbrev pub is_blank : List ℕ → Bool
is_blank [] = true
is_blank (c ∷ line) = is_space c && is_blank line

-- A byte in front of the first line.
abbrev pub on_first_line : ℕ → List (List ℕ) → List (List ℕ)
on_first_line c [] = (c ∷ []) ∷ []
on_first_line c (line ∷ lines) = (c ∷ line) ∷ lines

-- The lines of a file opened in binary mode, each with its newline.
unfoldable pub lines_of : List ℕ → List (List ℕ)
lines_of [] = []
lines_of (c ∷ bytes) =
    let lines = lines_of bytes in if c == 10 then (c ∷ []) ∷ lines else on_first_line c lines

-- `for line in f`, from the given offset.
unfoldable pub index_lines : ℕ → List (List ℕ) → List ℕ
index_lines offset [] = []
index_lines offset (line ∷ lines) =
    let rest = index_lines (offset + length line) lines in
    if is_blank line then rest else offset ∷ rest

pub record Entry : Type 0 where
  pub mtime : ℕ
  pub size : ℕ
  pub line_offsets : List ℕ

abbrev pub IndexCache : Type 0
IndexCache = List (String × Entry)

module _ {V : Type 0} where
  unfoldable pub cache_get : String → List (String × V) → Option V
  cache_get name [] = none
  cache_get name ((key, e) ∷ cache) = if str_eq key name then some e else cache_get name cache

  unfoldable pub cache_put : String → V → List (String × V) → List (String × V)
  cache_put name e [] = (name, e) ∷ []
  cache_put name e ((key, f) ∷ cache) =
      if str_eq key name then (name, e) ∷ cache else (key, f) ∷ cache_put name e cache

-- What the file system answers to one call: the two stat calls, and the bytes from a position on
-- that the loop reads before it ends, by an exception if `failed`.
pub record Answer : Type 0 where
  pub mtime : ℕ
  pub size : ℕ
  pub read_from : ℕ → List ℕ
  pub failed : Bool

-- `cached and cached["mtime"] == current_mtime and cached["size"] == current_size`
abbrev pub is_hit : Answer → Entry → Bool
is_hit a e = e.mtime == a.mtime && e.size == a.size

-- The offsets and the position to go on from.
unfoldable pub resume : Answer → Option Entry → List ℕ × ℕ
resume a none = ([], 0)
resume a (some e) = if leb e.size a.size then (e.line_offsets, e.size) else ([], 0)

unfoldable pub scan_and_store : String → Answer → IndexCache → List ℕ × ℕ → List ℕ × IndexCache
unfolding lines_of index_lines cache_put
scan_and_store filename a cache (offsets, start_pos) =
    let line_offsets = offsets ++ index_lines start_pos (lines_of (a.read_from start_pos)) in
    if a.failed then (line_offsets, cache) else (
      line_offsets,
      cache_put filename (record { mtime = a.mtime; size = a.size; line_offsets = line_offsets })
          cache,
    )

unfoldable pub look_up : String → Answer → IndexCache → Option Entry → List ℕ × IndexCache
unfolding resume scan_and_store
look_up filename a cache none = scan_and_store filename a cache (resume a none)
look_up filename a cache (some e) =
    if is_hit a e
    then (e.line_offsets, cache)
    else scan_and_store filename a cache (resume a (some e))

-- `none` as an answer is the OSError of the stat calls. The index and the new cache.
unfoldable pub build_line_index : String → Option Answer → IndexCache → List ℕ × IndexCache
unfolding look_up cache_get
build_line_index filename none cache = ([], cache)
build_line_index filename (some a) cache = look_up filename a cache (cache_get filename cache)
