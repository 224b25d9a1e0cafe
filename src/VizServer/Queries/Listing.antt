-- ===== src/VizServer/Queries/Listing.antt =====
-- `list_files`: the counts of the list are those of the index.
use Prim.Native.String.{String}
use text.Mathlib.Text.{◌==◌ as str_eq}
use text.Mathlib.TextEquality.{eq_iff}
use maze_client.Prelude.{
  ℕ, ◌≡◌, refl, sym, ◌∙◌, ap, Bool-cases, Option, none, some, List, [], ◌∷◌, ◌++◌, length, inl, inr,
  ◌∈◌,
}
use maze_client.VizServer.LineIndex.{IndexCache, build_line_index}
use maze_client.VizServer.Disk.{Disk, Server, Item, Head, head, skipped, raised}
use maze_client.VizServer.Queries.{
  describe_head, describe, append_item, list_loop, keep_list, serve_list, list_files, index_of,
}
use maze_client.VizServer.Queries.Settled.{lines_now, lines_now-again, lines_now-other}

module _ {F M : Type 0} (disk : Disk F M) where
  -- The entry's count is the number of lines that its file's next query finds.
  abbrev pub IsCounted : IndexCache → Item → Type 0
  IsCounted cache item =
      item.frame_count ≡ length (lines_now item.name (disk.answer item.name) cache)

  abbrev pub AllCounted : IndexCache → List Item → Type 0
  AllCounted cache [] = Unit {0}
  AllCounted cache (item ∷ items) = IsCounted cache item × AllCounted cache items

  AllCounted-concat :
      (cache : IndexCache) (items : List Item) (item : Item)
      → AllCounted cache items
      → IsCounted cache item
      → AllCounted cache (items ++ item ∷ [])
  AllCounted-concat cache [] item a c = (c, tt)
  AllCounted-concat cache (i ∷ items) item a c = (a.0, AllCounted-concat cache items item a.1 c)

  indexed : String → IndexCache → IndexCache
  indexed name cache = (build_line_index name (disk.answer name) cache).1

  lines_now-indexed :
      (name other : String) (cache : IndexCache)
      → lines_now other (disk.answer other) (indexed name cache)
        ≡ lines_now other (disk.answer other) cache
  unfolding indexed lines_now
  lines_now-indexed name other cache = elim (Bool-cases (str_eq name other)) [
    | inl same ↦
        rw (← (eq_iff name other).0 same) (lines_now-again name (disk.answer name) cache ∙ refl)
    | inr differ ↦ lines_now-other name other (disk.answer name) (disk.answer other) cache differ
  ]

  AllCounted-indexed :
      (name : String) (cache : IndexCache) (items : List Item)
      → AllCounted cache items
      → AllCounted (indexed name cache) items
  AllCounted-indexed name cache [] a = tt
  AllCounted-indexed name cache (item ∷ items) a = (
    a.0 ∙ ap length (sym (lines_now-indexed name item.name cache)),
    AllCounted-indexed name cache items a.1,
  )

  -- What a run of the loop from these entries gives, if it gives a list.
  Lists : Option (List Item × Server M) → Type 0
  Lists none = Unit {0}
  Lists (some (items, s)) = AllCounted s.index_cache items

  Describes : String → List ℕ → Option (Option Item) → Type 0
  Describes name xs none = Unit {0}
  Describes name xs (some none) = Unit {0}
  Describes name xs (some (some item)) = (item.name ≡ name) × (item.frame_count ≡ length xs)

  describe_head-Describes :
      (now : ℕ) (name : String) (stat : ℕ × ℕ) (xs : List ℕ) (h : Head)
      → Describes name xs (describe_head disk now name stat xs h)
  unfolding Describes describe_head
  describe_head-Describes now name stat xs (head episode map_id) = (refl, refl)
  describe_head-Describes now name stat xs skipped = tt
  describe_head-Describes now name stat xs raised = tt

  describe-Describes :
      (now : ℕ) (name : String) (stat : ℕ × ℕ) (xs : List ℕ)
      → Describes name xs (describe disk now name stat xs)
  unfolding Describes describe
  describe-Describes now name stat [] = (refl, refl)
  describe-Describes now name stat (first ∷ later) =
      describe_head-Describes now name stat (first ∷ later) (disk.head_at name first)

  Describes-IsCounted :
      (name : String) (cache : IndexCache) (item : Item)
      → Describes name (lines_now name (disk.answer name) cache) (some (some item))
      → IsCounted (indexed name cache) item
  unfolding Describes
  Describes-IsCounted name cache item (same, count) =
      rw same (count ∙ ap length (sym (lines_now-indexed name name cache)))

  append_item-AllCounted :
      (name : String) (cache : IndexCache) (items : List Item) (o : Option Item)
      → AllCounted (indexed name cache) items
      → Describes name (lines_now name (disk.answer name) cache) (some o)
      → AllCounted (indexed name cache) (append_item disk o items)
  unfolding append_item
  append_item-AllCounted name cache items none a d = a
  append_item-AllCounted name cache items (some item) a d =
      AllCounted-concat (indexed name cache) items item a (Describes-IsCounted name cache item d)

  -- The rest of the loop keeps the counts.
  Keeps : ℕ → List String → Type 0
  Keeps now names =
      (items : List Item) (s : Server M)
      → AllCounted s.index_cache items
      → Lists (list_loop disk now names items s)

  Keeps-next :
      (now : ℕ) (name : String) (names : List String) → Keeps now names → Keeps now (name ∷ names)
  unfolding Keeps Lists list_loop indexed lines_now
  Keeps-next now name names keeps items s a = at (disk.stat_file name)
    where
      later : Server M
      later = record s { index_cache = indexed name s.index_cache }

      xs : List ℕ
      xs = lines_now name (disk.answer name) s.index_cache

      go_on : Option (Option Item) → Option (List Item × Server M)
      go_on none = none
      go_on (some item) = list_loop disk now names (append_item disk item items) later

      described : (o : Option (Option Item)) → Describes name xs o → Lists (go_on o)
      described none d = tt
      described (some o) d = keeps (append_item disk o items) later (
          append_item-AllCounted name s.index_cache items o
            (AllCounted-indexed name s.index_cache items a) d)

      at :
          (o : Option (ℕ × ℕ))
          → Lists (elim o [
            | none ↦ list_loop disk now names items s
            | some stat ↦ go_on (describe disk now name stat xs)
          ])
      at none = keeps items s a
      at (some stat) =
          described (describe disk now name stat xs) (describe-Describes now name stat xs)

  list_loop-Lists : (now : ℕ) (names : List String) → Keeps now names
  unfolding Keeps Lists list_loop
  list_loop-Lists now [] = λ items s a. a
  list_loop-Lists now (name ∷ names) = Keeps-next now name names (list_loop-Lists now names)

  keep_list-Lists :
      (now : ℕ) (o : Option (List Item × Server M)) → Lists o → Lists (keep_list disk now o)
  unfolding Lists keep_list
  keep_list-Lists now none a = tt
  keep_list-Lists now (some (items, s)) a = a

  serve_list-Lists :
      (now : ℕ) (s : Server M) (kept : Option (List Item))
      → kept ≡ none
      → Lists (serve_list disk now s kept)
  unfolding serve_list Keeps
  serve_list-Lists now s none fresh =
      keep_list-Lists now _ (list_loop-Lists now disk.listing [] s tt)
  serve_list-Lists now s (some items) fresh = cc

  Lists-at :
      (o : Option (List Item × Server M)) (items : List Item) (s : Server M)
      → o ≡ some (items, s)
      → Lists o
      → AllCounted s.index_cache items
  unfolding Lists
  Lists-at o items s e l = rw e at l

AllCounted-mem :
    {F M : Type 0} (disk : Disk F M) (cache : IndexCache) (items : List Item) (item : Item)
    → AllCounted disk cache items
    → item ∈ items
    → IsCounted disk cache item
AllCounted-mem disk cache [] item a m = absurd m
AllCounted-mem disk cache (i ∷ items) item a (inl e) = rw e a.0
AllCounted-mem disk cache (i ∷ items) item a (inr m) = AllCounted-mem disk cache items item a.1 m

-- When no list is kept from before and `list_files` gives a list, the frame count of each entry is
-- the number of lines that the index gives for its file when it is asked again, as
-- `get_frame_count` and `load_frames_paged` do, as long as the files do not change.
pub list_files-IsCounted :
    {F M : Type 0} (disk : Disk F M) (now : ℕ) (s later : Server M) (items : List Item)
    (item : Item)
    → s.file_list ≡ none
    → list_files disk now s ≡ some (items, later)
    → item ∈ items
    → item.frame_count ≡ length (index_of disk item.name later).0
unfolding list_files lines_now index_of
list_files-IsCounted disk now s later items item fresh listed m =
    AllCounted-mem disk later.index_cache items item
      (Lists-at disk _ items later listed (serve_list-Lists disk now s s.file_list fresh)) m
