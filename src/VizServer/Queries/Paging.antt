-- ===== src/VizServer/Queries/Paging.antt =====
-- `load_frames_paged`: pages that follow each other are the page over both.
use Prim.Native.String.{String}
use mathlib.Core.List.{append-nil}
use maze_client.Prelude.{
  ℕ, zero, suc, ◌+◌, ◌-◌, ◌≡◌, refl, sym, ◌∙◌, ap, min, leb, Bool, true, false, if◌then◌else◌,
  Bool-cases, Option, none, some, Option-cases, List, [], ◌++◌, length, arith, inl, inr,
}
use maze_client.Prelude.Int.{ℤ, pos, ◌-ℤ◌, to_ℕ, min_ℤ}
use maze_client.VizServer.LineIndex.{build_line_index}
use maze_client.VizServer.Disk.{
  Disk, Server, Error, Line, blank, invalid, unreadable, frame, index_at,
}
use maze_client.VizServer.Queries.{
  add_line, read_frames, finish_page, page_of, validate_filename, load_frames_paged,
}
use maze_client.VizServer.Queries.Settled.{lines_now, lines_now-again}

-- The frames of two reads, if neither fails.
abbrev pub both : {F : Type 0} → Option (List F) → Option (List F) → Option (List F)
both none q = none
both (some xs) none = none
both (some xs) (some ys) = some (xs ++ ys)

both-nil_right : {F : Type 0} (p : Option (List F)) → both p (some []) ≡ p
both-nil_right none = refl
both-nil_right (some xs) = ap some (append-nil xs)

both-nil : {F : Type 0} (q : Option (List F)) → both (some []) q ≡ q
both-nil none = refl
both-nil (some ys) = refl

add_line-both :
    {F : Type 0} (l : Line F) (p q : Option (List F))
    → both (add_line l p) q ≡ add_line l (both p q)
unfolding add_line
add_line-both unreadable p q = refl
add_line-both blank p q = refl
add_line-both invalid p q = refl
add_line-both (frame f) none q = refl
add_line-both (frame f) (some xs) none = refl
add_line-both (frame f) (some xs) (some ys) = refl

span : (e o : ℕ) → to_ℕ (pos e -ℤ pos o) ≡ e - o
span e zero = omega arith
span e (suc o) = ground arith

min-pos : (a b : ℕ) → min_ℤ (pos a) (pos b) ≡ pos (min a b)
min-pos a b = ground arith

finish_page-frames :
    {F : Type 0} (total : ℕ) (past : Bool) (read : Option (List F))
    → (finish_page total past read).frames ≡ (if past then some [] else read)
unfolding finish_page
finish_page-frames total true read = refl
finish_page-frames total false none = refl
finish_page-frames total false (some frames) = refl

finish_page-total :
    {F : Type 0} (total : ℕ) (past : Bool) (read : Option (List F))
    → (finish_page total past read).total ≡ total
unfolding finish_page
finish_page-total total true read = refl
finish_page-total total false none = refl
finish_page-total total false (some frames) = refl

module _ {F M : Type 0} (disk : Disk F M) (filename : String) where
  read_frames-both :
      (xs : List ℕ) (a b n i j : ℕ)
      → n ≡ a + b
      → j ≡ i + a
      → read_frames disk filename xs n (pos i)
        ≡ both (read_frames disk filename xs a (pos i)) (read_frames disk filename xs b (pos j))
  unfolding read_frames
  read_frames-both xs zero b n i j all from = rw (count, start) (sym (both-nil _))
    where
      count : n ≡ b
      count = omega arith

      start : j ≡ i
      start = omega arith
  read_frames-both xs (suc a) b zero i j all from = absurd (omega arith)
  read_frames-both xs (suc a) b (suc n) i j all from =
      next (index_at xs (pos i)) _ _ _
        (read_frames-both xs a b n (i + 1) j (omega arith) (omega arith))
    where
      next :
          (o : Option ℕ) (p q r : Option (List F))
          → r ≡ both p q
          → elim o [ none ↦ none | some at ↦ add_line (disk.line_at filename at) r ]
            ≡ both (elim o [ none ↦ none | some at ↦ add_line (disk.line_at filename at) p ]) q
      next none p q r e = refl
      next (some at) p q r e = rw e (sym (add_line-both (disk.line_at filename at) p q))

  -- A page at natural numbers.
  page : List ℕ → ℕ → ℕ → Option (List F)
  page xs a l =
      if leb (length xs) a
      then some []
      else if disk.opens filename
      then read_frames disk filename xs (min (a + l) (length xs) - a) (pos a)
      else none

  page_of-page :
      (xs : List ℕ) (a l : ℕ) → (page_of disk filename xs (pos a) (pos l)).frames ≡ page xs a l
  unfolding page_of page
  page_of-page xs a l =
      rw (finish_page-frames, min-pos (a + l) (length xs), span (min (a + l) (length xs)) a) refl

  still_past : (n a l : ℕ) → leb n a ≡ true → leb n (a + l) ≡ true
  still_past n a l h = ground arith

  same_end : (n a l m : ℕ) → leb n (a + l) ≡ true → min (a + (l + m)) n - a ≡ min (a + l) n - a
  same_end n a l m h = ground arith

  next_start : (n a l : ℕ) → leb n (a + l) ≡ false → a + l ≡ a + (min (a + l) n - a)
  next_start n a l h = ground arith

  page-both : (xs : List ℕ) (a l m : ℕ) → page xs a (l + m) ≡ both (page xs a l) (page xs (a + l) m)
  unfolding page
  page-both xs a l m = elim (Bool-cases (leb (length xs) a)) [
    | inl past ↦ rw (past, still_past (length xs) a l past) refl
    | inr here ↦ elim (Bool-cases (disk.opens filename)) [
      | inl opens ↦ elim (Bool-cases (leb (length xs) (a + l))) [
        | inl past ↦
            rw (here, opens, past)
              (ap (λ n. read_frames disk filename xs n (pos a)) (same_end (length xs) a l m past)
                ∙ sym (both-nil_right _))
        | inr there ↦
            rw (here, opens, there)
              (read_frames-both xs _ _ _ a (a + l) (omega arith) (next_start (length xs) a l there))
      ]
      | inr shut ↦ rw (here, shut) refl
    ]
  ]

  page_of-both :
      (xs : List ℕ) (a l m : ℕ)
      → (page_of disk filename xs (pos a) (pos (l + m))).frames
        ≡ both
            (page_of disk filename xs (pos a) (pos l)).frames
            (page_of disk filename xs (pos (a + l)) (pos m)).frames
  page_of-both xs a l m =
      rw (page_of-page xs a (l + m), page_of-page xs a l, page_of-page xs (a + l) m)
        (page-both xs a l m)

  load_invalid :
      (e : Error) (o l : ℤ) (s : Server M)
      → validate_filename disk filename ≡ some e
      → load_frames_paged disk filename o l s
        ≡ (record { frames = none; total = 0; error = some e }, s)
  unfolding load_frames_paged
  load_invalid e o l s h = rw (load_frames_paged, h) refl

  load_valid :
      (o l : ℤ) (s : Server M)
      → validate_filename disk filename ≡ none
      → load_frames_paged disk filename o l s ≡ (
        page_of disk filename (lines_now filename (disk.answer filename) s.index_cache) o l,
        record s {
          index_cache = (build_line_index filename (disk.answer filename) s.index_cache).1;
        },
      )
  unfolding load_frames_paged lines_now
  load_valid o l s h = rw (load_frames_paged, h) refl

  page_of-total : (xs : List ℕ) (o l : ℤ) → (page_of disk filename xs o l).total ≡ length xs
  unfolding page_of
  page_of-total xs o l = finish_page-total _ _ _

-- For a file that does not change, the page of `limit + more` frames is the page of `limit` frames
-- and then, by a second request, the page of `more` frames from where the first page ends: it
-- holds the frames of both, or fails if one of them does. Both requests report the same total.
pub load_frames_paged-both :
    {F M : Type 0} (disk : Disk F M) (filename : String) (offset limit more : ℕ) (s : Server M)
    → let first = load_frames_paged disk filename (pos offset) (pos limit) s in
      let second = load_frames_paged disk filename (pos (offset + limit)) (pos more) first.1 in
      let whole = load_frames_paged disk filename (pos offset) (pos (limit + more)) s in
      (whole.0.frames ≡ both first.0.frames second.0.frames) × (second.0.total ≡ first.0.total)
unfolding lines_now
load_frames_paged-both disk filename offset limit more s =
    elim (Option-cases (validate_filename disk filename)) [
      | inr (e, bad) ↦
          rw
            (
              load_invalid disk filename e (pos offset) (pos (limit + more)) s bad,
              load_invalid disk filename e (pos offset) (pos limit) s bad,
              load_invalid disk filename e (pos (offset + limit)) (pos more) s bad,
            )
            (refl, refl)
      | inl good ↦
          let a = disk.answer filename in
          let xs = lines_now filename a s.index_cache in
          let later = record s { index_cache = (build_line_index filename a s.index_cache).1 } in
          rw
            (
              load_valid disk filename (pos offset) (pos (limit + more)) s good,
              load_valid disk filename (pos offset) (pos limit) s good,
              load_valid disk filename (pos (offset + limit)) (pos more) later good,
              lines_now-again filename a s.index_cache,
            )
            (
              page_of-both disk filename _ offset limit more,
              page_of-total disk filename _ _ _ ∙ sym (page_of-total disk filename _ _ _),
            )
    ]
