-- ===== src/VizServer/LineIndex/Partial.antt =====
-- A file that was indexed in the middle of a line: the continuation counts as one more line.
use Prim.Native.String.{String}
use maze_client.Prelude.{
  ℕ, ◌+◌, ◌==◌, ◌≡◌, inl, inr, refl, sym, ap, ◌∙◌, false, some, List, [], ◌∷◌, ◌++◌, length, arith,
  length-append, Bool-cases,
}
use mathlib.Core.Path.{ap₂}
use mathlib.Core.List.{append_assoc}
use maze_client.VizServer.LineIndex.{
  IndexCache, is_blank, is_hit, lines_of, index_lines, cache_get, scan_and_store, build_line_index,
}
use maze_client.VizServer.LineIndex.Scan.{IsTerminated}
use maze_client.VizServer.LineIndex.Grow.{
  full_index, full_index-append, drop-append, steady, entry_of, build_found, miss, hit_means,
  resume_grown,
}

-- The bytes hold no newline.
abbrev pub IsOneLine : List ℕ → Type 0
IsOneLine [] = Unit {0}
IsOneLine (c ∷ bytes) = ((c == 10) ≡ false) × IsOneLine bytes

lines_of-line :
    (line bytes : List ℕ)
    → IsOneLine line
    → lines_of (line ++ 10 ∷ bytes) ≡ (line ++ 10 ∷ []) ∷ lines_of bytes
unfolding lines_of
lines_of-line [] bytes h = refl
lines_of-line (c ∷ line) bytes h = rw (h.0, lines_of-line line bytes h.1) refl

lines_of-part :
    (c : ℕ) (part : List ℕ) → IsOneLine (c ∷ part) → lines_of (c ∷ part) ≡ (c ∷ part) ∷ []
unfolding lines_of
lines_of-part c [] h = rw h.0
lines_of-part c (d ∷ part) h = rw (h.0, lines_of-part d part h.1) refl

is_blank-append : (xs ys : List ℕ) → is_blank xs ≡ false → is_blank (xs ++ ys) ≡ false
is_blank-append [] ys h = cc
is_blank-append (x ∷ xs) ys h = ground (arith, is_blank-append xs ys)

IsOneLine-append : (xs ys : List ℕ) → IsOneLine xs → IsOneLine ys → IsOneLine (xs ++ ys)
IsOneLine-append [] ys hx hy = hy
IsOneLine-append (x ∷ xs) ys hx hy = (hx.0, IsOneLine-append xs ys hx.1 hy)

index-line :
    (offset : ℕ) (line : List ℕ) (lines : List (List ℕ))
    → is_blank line ≡ false
    → index_lines offset (line ∷ lines) ≡ offset ∷ index_lines (offset + length line) lines
unfolding index_lines
index-line offset line lines h = rw h

-- `whole` is the part of the file up to the last newline, `part` is the unfinished line that was
-- there when the file was indexed, and `rest` is what finishes it; neither is blank.
module _ (whole part rest after : List ℕ) (t : IsTerminated whole) (one : IsOneLine part)
    (one' : IsOneLine rest) (seen : is_blank part ≡ false) (seen' : is_blank rest ≡ false) where
  abbrev pub later : List ℕ
  later = index_lines (length whole + length part + length rest + 1) (lines_of after)

  abbrev pub old : List ℕ
  old = whole ++ part

  abbrev pub more : List ℕ
  more = rest ++ 10 ∷ after

  full-old : full_index old ≡ full_index whole ++ length whole ∷ []
  full-old =
      sym (full_index-append whole part t) ∙ ap (λ is. full_index whole ++ is) (last part one seen)
    where
      last :
          (p : List ℕ)
          → IsOneLine p
          → is_blank p ≡ false
          → index_lines (length whole) (lines_of p) ≡ length whole ∷ []
      last [] o b = cc
      last (c ∷ p) o b =
          ap (index_lines (length whole)) (lines_of-part c p o)
          ∙ index-line (length whole) (c ∷ p) [] b
          ∙ ap (λ is. length whole ∷ is) (unfold index_lines in refl)

  full-now : full_index (old ++ more) ≡ full_index whole ++ length whole ∷ later
  full-now =
      ap full_index (
        append_assoc whole part more
        ∙ ap (λ b. whole ++ b) (sym (append_assoc part rest (10 ∷ after))))
      ∙ sym (full_index-append whole ((part ++ rest) ++ 10 ∷ after) t)
      ∙ ap (λ is. full_index whole ++ is)
          (ap (index_lines (length whole))
              (lines_of-line (part ++ rest) after (IsOneLine-append part rest one one'))
            ∙ index-line (length whole) ((part ++ rest) ++ 10 ∷ []) (lines_of after)
                (is_blank-append (part ++ rest) (10 ∷ []) (is_blank-append part rest seen))
            ∙ ap (λ n. length whole ∷ index_lines n (lines_of after)) size)
    where
      size :
          length whole + length ((part ++ rest) ++ 10 ∷ [])
          ≡ length whole + length part + length rest + 1
      size = omega (arith, length-append (part ++ rest) (10 ∷ []), length-append part rest)

  continued : index_lines (length old) (lines_of more) ≡ (length whole + length part) ∷ later
  continued =
      ap (index_lines (length old)) (lines_of-line rest after one')
      ∙ index-line (length old) (rest ++ 10 ∷ []) (lines_of after)
          (is_blank-append rest (10 ∷ []) seen')
      ∙ ap₂ (λ n m. n ∷ index_lines m (lines_of after)) (length-append whole part) size
    where
      size : length old + length (rest ++ 10 ∷ []) ≡ length whole + length part + length rest + 1
      size = omega (arith, length-append rest (10 ∷ []), length-append whole part)

  scanned :
      (filename : String) (cache : IndexCache) (mtime' : ℕ)
      → (scan_and_store filename (steady mtime' (old ++ more)) cache (full_index old, length old)).0
        ≡ full_index old ++ index_lines (length old) (lines_of more)
  unfolding scan_and_store steady
  scanned filename cache mtime' =
      ap (λ (b : List ℕ). full_index old ++ index_lines (length old) (lines_of b))
        (drop-append old more)

  -- The returned index, on either path through the cache test.
  returned :
      (filename : String) (cache : IndexCache) (mtime mtime' : ℕ)
      → cache_get filename cache ≡ some (entry_of mtime old)
      → (build_line_index filename (some (steady mtime' (old ++ more))) cache).0
        ≡ full_index old ++ index_lines (length old) (lines_of more)
  returned filename cache mtime mtime' found =
      rw (build_found filename cache (steady mtime' (old ++ more)) (entry_of mtime old) found)
        (elim (Bool-cases (is_hit (steady mtime' (old ++ more)) (entry_of mtime old))) [
          | inl h ↦ absurd (
              omega (
                arith,
                (hit_means filename cache mtime mtime' old (old ++ more) h).1,
                length-append old more,
                length-append rest (10 ∷ after),
              ))
          | inr h ↦
              rw
                (
                  miss filename cache (steady mtime' (old ++ more)) (entry_of mtime old) h,
                  resume_grown filename cache mtime mtime' old more,
                )
                (scanned filename cache mtime')
        ])

-- The file was indexed when it ended in an unfinished line `part` behind the whole lines `whole`,
-- and now has `rest`, which finishes that line, and further bytes `after`; neither `part` nor
-- `rest` is blank. Then a scan of the whole file has one offset for the line, its start, and the
-- returned index has in addition the offset in the middle of the line where the file ended before:
-- every other offset is the same.
pub build_line_index-unfinished :
    (whole part rest after : List ℕ) (filename : String) (cache : IndexCache) (mtime mtime' : ℕ)
    → IsTerminated whole
    → IsOneLine part × (is_blank part ≡ false)
    → IsOneLine rest × (is_blank rest ≡ false)
    → cache_get filename cache ≡ some (entry_of mtime (whole ++ part))
    → (before : List ℕ) × (later : List ℕ) × (full_index ((whole ++ part) ++ (rest ++ 10 ∷ after))
        ≡ before ++ length whole ∷ later)
      × ((build_line_index filename
            (some (steady mtime' ((whole ++ part) ++ (rest ++ 10 ∷ after))))
            cache).0
          ≡ before ++ length whole ∷ (length whole + length part) ∷ later)
build_line_index-unfinished whole part rest after filename cache mtime mtime' t (one, seen)
      (one', seen') found =
    (
      full_index whole,
      later whole part rest after t one one' seen seen',
      full-now whole part rest after t one one' seen seen',
      returned whole part rest after t one one' seen seen' filename cache mtime mtime' found
          ∙ ap₂ (λ a b. a ++ b) (full-old whole part rest after t one one' seen seen')
              (continued whole part rest after t one one' seen seen')
          ∙ append_assoc (full_index whole) (length whole ∷ []) _,
    )
