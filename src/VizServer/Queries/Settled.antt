-- ===== src/VizServer/Queries/Settled.antt =====
-- The index of a file that does not change: a second call gives the same lines, and so does a call
-- for another file in between.
use Prim.Native.String.{String}
use text.Mathlib.Text.{◌==◌ as str_eq}
use text.Mathlib.TextEquality.{eq_iff}
use maze_client.Prelude.{
  ◌≡◌, refl, sym, ◌∙◌, true, false, Bool-cases, Option, none, some, List, [], ◌∷◌, ◌++◌, arith, ◌⊎◌,
  inl, inr, ℕ,
}
use maze_client.VizServer.LineIndex.{
  Answer, Entry, IndexCache, is_hit, resume, scan_and_store, look_up, lines_of, index_lines,
  cache_get, cache_put, build_line_index,
}
use maze_client.VizServer.LineIndex.Grow.{cache_get-put_self}

pub cache_get-put_ne :
    (name other : String) (e : Entry) (cache : IndexCache)
    → str_eq name other ≡ false
    → cache_get other (cache_put name e cache) ≡ cache_get other cache
unfolding cache_get cache_put
cache_get-put_ne name other e [] h = rw h refl
cache_get-put_ne name other e ((key, f) ∷ cache) h = ground (
  arith,
  eq_iff key name,
  eq_iff key other,
  eq_iff name other,
  cache_get-put_ne name other e cache h,
)

-- What a call answers depends on the entry of its file only.
answer_of : Answer → Option Entry → List ℕ
answer_of a none = (scan_and_store "" a [] (resume a none)).0
answer_of a (some e) = (look_up "" a [] (some e)).0

module _ (name : String) (a : Answer) where
  look_up_lines :
      (cache : IndexCache) (found : Option Entry)
      → (look_up name a cache found).0 ≡ answer_of a found
  unfolding answer_of look_up scan_and_store
  look_up_lines cache none = ground arith
  look_up_lines cache (some e) = ground arith

  -- The entry of the file answers the next call of the same kind at once.
  abbrev Kept : IndexCache → List ℕ × IndexCache → Type 0
  Kept cache (lines, cache') =
      (cache' ≡ cache)
      ⊎ ((e : Entry) × (cache_get name cache' ≡ some e)
          × (is_hit a e ≡ true)
          × (e.line_offsets ≡ lines))

  self_hit :
      (lines : List ℕ)
      → is_hit a (record { mtime = a.mtime; size = a.size; line_offsets = lines }) ≡ true
  self_hit lines = ground arith

  scan_and_store-Kept :
      (cache : IndexCache) (start : List ℕ × ℕ) → Kept cache (scan_and_store name a cache start)
  unfolding scan_and_store
  scan_and_store-Kept cache (offsets, at) = elim (Bool-cases a.failed) [
    | inl f ↦ rw f (inl refl)
    | inr f ↦ rw f (inr (stored, cache_get-put_self name stored cache, self_hit lines, refl))
  ]
    where
      lines : List ℕ
      lines = offsets ++ index_lines at (lines_of (a.read_from at))

      stored : Entry
      stored = record { mtime = a.mtime; size = a.size; line_offsets = lines }

  look_up-Kept :
      (cache : IndexCache) (found : Option Entry) → Kept cache (look_up name a cache found)
  unfolding look_up
  look_up-Kept cache none = scan_and_store-Kept cache (resume a none)
  look_up-Kept cache (some e) = elim (Bool-cases (is_hit a e)) [
    | inl h ↦ rw h (inl refl)
    | inr h ↦ rw h (scan_and_store-Kept cache (resume a (some e)))
  ]

  hit-answer : (e : Entry) → is_hit a e ≡ true → answer_of a (some e) ≡ e.line_offsets
  unfolding answer_of look_up
  hit-answer e h = rw (answer_of, h) refl

  look_up-again :
      (cache : IndexCache)
      → answer_of a (cache_get name (look_up name a cache (cache_get name cache)).1)
        ≡ (look_up name a cache (cache_get name cache)).0
  look_up-again cache = elim (look_up-Kept cache (cache_get name cache)) [
    | inl same ↦ rw same (sym (look_up_lines cache (cache_get name cache)))
    | inr (e, found, hit, lines) ↦ rw found (hit-answer e hit ∙ lines)
  ]

  scan_and_store-other :
      (other : String) (cache : IndexCache) (start : List ℕ × ℕ)
      → str_eq name other ≡ false
      → cache_get other (scan_and_store name a cache start).1 ≡ cache_get other cache
  unfolding scan_and_store
  scan_and_store-other other cache start h = elim (Bool-cases a.failed) [
    | inl f ↦ rw f refl
    | inr f ↦ rw f (cache_get-put_ne name other _ cache h)
  ]

  look_up-other :
      (other : String) (cache : IndexCache) (found : Option Entry)
      → str_eq name other ≡ false
      → cache_get other (look_up name a cache found).1 ≡ cache_get other cache
  unfolding look_up
  look_up-other other cache none h = scan_and_store-other other cache (resume a none) h
  look_up-other other cache (some e) h = elim (Bool-cases (is_hit a e)) [
    | inl hit ↦ rw hit refl
    | inr _ ↦ ground (arith, scan_and_store-other other cache (resume a (some e)) h)
  ]

-- What the next call for the file answers.
unfoldable pub lines_now : String → Option Answer → IndexCache → List ℕ
lines_now name a cache = (build_line_index name a cache).0

lines_now-answer :
    (name : String) (a : Answer) (cache : IndexCache)
    → lines_now name (some a) cache ≡ answer_of a (cache_get name cache)
unfolding lines_now build_line_index
lines_now-answer name a cache = look_up_lines name a cache (cache_get name cache)

pub lines_now-again :
    (name : String) (a : Option Answer) (cache : IndexCache)
    → lines_now name a (build_line_index name a cache).1 ≡ (build_line_index name a cache).0
unfolding lines_now build_line_index
lines_now-again name none cache = refl
lines_now-again name (some a) cache = lines_now-answer name a _ ∙ look_up-again name a cache

pub lines_now-other :
    (name other : String) (a b : Option Answer) (cache : IndexCache)
    → str_eq name other ≡ false
    → lines_now other b (build_line_index name a cache).1 ≡ lines_now other b cache
unfolding lines_now build_line_index
lines_now-other name other none b cache h = refl
lines_now-other name other (some a) none cache h = refl
lines_now-other name other (some a) (some b) cache h =
    lines_now-answer other b _
    ∙ (rw (look_up-other name a other cache (cache_get name cache) h)
        (sym (lines_now-answer other b cache)))
