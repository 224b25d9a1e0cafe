-- ===== src/VizServer/LineIndex/Grow.antt =====
-- A growing file: the cached index and the bytes behind it give the index of the whole file.
use Prim.Native.String.{String}
use text.Mathlib.Text.{◌==◌ as str_eq}
use text.Mathlib.TextPositions.{eq_refl}
use maze_client.Prelude.{
  ℕ, zero, suc, ◌+◌, ◌<◌, ◌≡◌, ◌⊎◌, inl, inr, refl, sym, ap, ◌∙◌, true, false, none, some, List, [],
  ◌∷◌, ◌++◌, length, arith, length-append, Bool-cases,
}
use mathlib.Core.List.{append-nil}
use maze_client.VizServer.LineIndex.{
  Entry, IndexCache, Answer, is_hit, lines_of, index_lines, cache_get, cache_put, resume,
  scan_and_store, look_up, build_line_index,
}
use maze_client.VizServer.LineIndex.Scan.{
  IsTerminated, total, lines_of-append, total-lines_of, index_lines-append,
}

-- The index of a whole file.
unfoldable pub full_index : List ℕ → List ℕ
full_index bytes = index_lines 0 (lines_of bytes)

-- The bytes from a position on.
abbrev pub drop : ℕ → List ℕ → List ℕ
drop zero bytes = bytes
drop (suc n) [] = []
drop (suc n) (c ∷ bytes) = drop n bytes

pub drop-append : (xs ys : List ℕ) → drop (length xs) (xs ++ ys) ≡ ys
drop-append [] ys = refl
drop-append (x ∷ xs) ys = drop-append xs ys

pub cache_get-put_self :
    {V : Type 0} (name : String) (e : V) (cache : List (String × V))
    → cache_get name (cache_put name e cache) ≡ some e
unfolding cache_get cache_put
cache_get-put_self name e [] = rw eq_refl
cache_get-put_self name e ((key, f) ∷ cache) = elim (Bool-cases (str_eq key name)) [
  | inl h ↦ rw h (rw eq_refl refl)
  | inr h ↦ rw h (rw h (cache_get-put_self name e cache))
]

-- The file system's answer for a file with these bytes, which did not change between the calls.
unfoldable pub steady : ℕ → List ℕ → Answer
steady mtime bytes = record {
  mtime = mtime;
  size = length bytes;
  read_from = λ position. drop position bytes;
  failed = false;
}

-- An entry that was made from these bytes.
abbrev pub entry_of : ℕ → List ℕ → Entry
entry_of mtime bytes = record {
  mtime = mtime;
  size = length bytes;
  line_offsets = full_index bytes;
}

pub full_index-append :
    (old more : List ℕ)
    → IsTerminated old
    → full_index old ++ index_lines (length old) (lines_of more) ≡ full_index (old ++ more)
unfolding full_index
full_index-append old more t = sym (
    ap (index_lines 0) (lines_of-append old more t)
    ∙ index_lines-append 0 (lines_of old) (lines_of more)
    ∙ ap (λ n. index_lines 0 (lines_of old) ++ index_lines n (lines_of more)) at_end)
  where
    at_end : 0 + total (lines_of old) ≡ length old
    at_end = omega (arith, total-lines_of old)

-- What one call leaves: the index of the whole file, and an entry made from it.
abbrev pub IsSynced : String → ℕ → List ℕ → List ℕ × IndexCache → Type 0
IsSynced filename mtime bytes result =
    (result.0 ≡ full_index bytes) × (cache_get filename result.1 ≡ some (entry_of mtime bytes))

module _ (filename : String) (cache : IndexCache) where
  stored :
      (mtime : ℕ) (bytes offsets : List ℕ) (start : ℕ)
      → offsets ++ index_lines start (lines_of (drop start bytes)) ≡ full_index bytes
      → IsSynced filename mtime bytes
          (scan_and_store filename (steady mtime bytes) cache (offsets, start))
  unfolding scan_and_store steady
  stored mtime bytes offsets start e =
      rw e (refl, cache_get-put_self filename (entry_of mtime bytes) cache)

  rescanned :
      (mtime : ℕ) (bytes : List ℕ)
      → IsSynced filename mtime bytes (scan_and_store filename (steady mtime bytes) cache ([], 0))
  rescanned mtime bytes = stored mtime bytes [] 0 (unfold full_index in refl)

  pub build_found :
      (a : Answer) (e : Entry)
      → cache_get filename cache ≡ some e
      → build_line_index filename (some a) cache ≡ look_up filename a cache (some e)
  unfolding build_line_index
  build_found a e found = rw (found, build_line_index)

  build_absent :
      (a : Answer)
      → cache_get filename cache ≡ none
      → build_line_index filename (some a) cache ≡ scan_and_store filename a cache ([], 0)
  unfolding build_line_index
  build_absent a absent = rw (absent, build_line_index)

  pub miss :
      (a : Answer) (e : Entry)
      → is_hit a e ≡ false
      → look_up filename a cache (some e) ≡ scan_and_store filename a cache (resume a (some e))
  unfolding look_up
  miss a e h = rw (h, look_up)

  pub hit :
      (a : Answer) (e : Entry)
      → is_hit a e ≡ true
      → look_up filename a cache (some e) ≡ (e.line_offsets, cache)
  unfolding look_up
  hit a e h = rw (h, look_up)

  pub resume_grown :
      (mtime mtime' : ℕ) (old more : List ℕ)
      → resume (steady mtime' (old ++ more)) (some (entry_of mtime old))
        ≡ (full_index old, length old)
  unfolding resume steady
  resume_grown mtime mtime' old more = ground (arith, length-append old more)

  resume_shrunk :
      (mtime mtime' : ℕ) (old bytes : List ℕ)
      → length bytes < length old
      → resume (steady mtime' bytes) (some (entry_of mtime old)) ≡ ([], 0)
  unfolding resume steady
  resume_shrunk mtime mtime' old bytes h = ground arith

  pub hit_means :
      (mtime mtime' : ℕ) (old bytes : List ℕ)
      → is_hit (steady mtime' bytes) (entry_of mtime old) ≡ true
      → (mtime ≡ mtime') × (length old ≡ length bytes)
  unfolding steady
  hit_means mtime mtime' old bytes h = ground arith

pub nil-of-length : (old more : List ℕ) → length old ≡ length (old ++ more) → more ≡ []
nil-of-length old [] e = refl
nil-of-length old (c ∷ more) e = absurd (omega (arith, length-append old (c ∷ more)))

-- The cached entry was made when the file had the bytes `old`, which end in a newline or are
-- empty, and the file now has the bytes `old ++ more`. Then the returned index is that of a scan
-- of the whole file, and the entry that is left in the cache was made from the whole file.
pub build_line_index-grown :
    (filename : String) (cache : IndexCache) (mtime mtime' : ℕ) (old more : List ℕ)
    → cache_get filename cache ≡ some (entry_of mtime old)
    → IsTerminated old
    → IsSynced filename mtime'
        (old ++ more)
        (build_line_index filename (some (steady mtime' (old ++ more))) cache)
build_line_index-grown filename cache mtime mtime' old more found t =
    rw (build_found filename cache (steady mtime' (old ++ more)) (entry_of mtime old) found)
      (elim (Bool-cases (is_hit (steady mtime' (old ++ more)) (entry_of mtime old))) [
        | inl h ↦
            rw (hit filename cache (steady mtime' (old ++ more)) (entry_of mtime old) h)
              (unchanged h)
        | inr h ↦
            rw
              (
                miss filename cache (steady mtime' (old ++ more)) (entry_of mtime old) h,
                resume_grown filename cache mtime mtime' old more,
              )
              (stored filename cache mtime' (old ++ more) (full_index old) (length old)
                (rw drop-append (full_index-append old more t)))
      ])
  where
    unchanged :
        is_hit (steady mtime' (old ++ more)) (entry_of mtime old) ≡ true
        → IsSynced filename mtime' (old ++ more) (full_index old, cache)
    unchanged h =
        let (same, sizes) = hit_means filename cache mtime mtime' old (old ++ more) h in
        rw (nil-of-length old more sizes, append-nil, ← same) (refl, found)

-- A file that is now shorter than the cached entry says is indexed from its beginning, and so is a
-- file with no entry.
build_line_index-rebuilt :
    (filename : String) (cache : IndexCache) (mtime' : ℕ) (bytes : List ℕ)
    → (cache_get filename cache ≡ none)
      ⊎ ((mtime : ℕ) × (old : List ℕ) × (cache_get filename cache ≡ some (entry_of mtime old))
          × (length bytes < length old))
    → IsSynced filename mtime' bytes (build_line_index filename (some (steady mtime' bytes)) cache)
build_line_index-rebuilt filename cache mtime' bytes (inl absent) =
    rw (build_absent filename cache (steady mtime' bytes) absent)
      (rescanned filename cache mtime' bytes)
build_line_index-rebuilt filename cache mtime' bytes (inr (mtime, old, found, shorter)) =
    rw (build_found filename cache (steady mtime' bytes) (entry_of mtime old) found)
      (elim (Bool-cases (is_hit (steady mtime' bytes) (entry_of mtime old))) [
        | inl h ↦ absurd (omega (arith, (hit_means filename cache mtime mtime' old bytes h).1))
        | inr h ↦
            rw
              (
                miss filename cache (steady mtime' bytes) (entry_of mtime old) h,
                resume_shrunk filename cache mtime mtime' old bytes shorter,
              )
              (rescanned filename cache mtime' bytes)
      ])
