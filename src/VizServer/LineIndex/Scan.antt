-- ===== src/VizServer/LineIndex/Scan.antt =====
-- The lines of a file and their offsets: what a scan in two parts gives.
use maze_client.Prelude.{
  ℕ, suc, ◌+◌, ◌==◌, ◌≡◌, ◌≢◌, inl, inr, refl, ap, ◌∙◌, List, [], ◌∷◌, ◌++◌, length, arith,
  Bool-cases,
}
use maze_client.VizServer.LineIndex.{is_blank, on_first_line, lines_of, index_lines}

-- Empty, or with a newline at the end.
abbrev pub IsTerminated : List ℕ → Type 0
IsTerminated [] = Unit {0}
IsTerminated (c ∷ []) = c ≡ 10
IsTerminated (c ∷ d ∷ bytes) = IsTerminated (d ∷ bytes)

abbrev pub total : List (List ℕ) → ℕ
total [] = 0
total (line ∷ lines) = length line + total lines

lines_of-ne : (c : ℕ) (bytes : List ℕ) → lines_of (c ∷ bytes) ≢ []
unfolding lines_of
lines_of-ne c bytes e = elim (Bool-cases (c == 10)) [
  | inl n ↦ cc (rw n at e)
  | inr n ↦ no_line c (lines_of bytes) (rw n at e)
]
  where
    no_line : (c : ℕ) (lines : List (List ℕ)) → on_first_line c lines ≡ [] → ⊥
    no_line c [] e = cc
    no_line c (l ∷ lines) e = cc

on_first_line-append :
    (c : ℕ) (xs ys : List (List ℕ))
    → xs ≢ []
    → on_first_line c (xs ++ ys) ≡ on_first_line c xs ++ ys
on_first_line-append c [] ys ne = absurd (ne refl)
on_first_line-append c (x ∷ xs) ys ne = refl

-- Behind a newline the lines of the rest are those of the rest by itself.
pub lines_of-append :
    (old more : List ℕ) → IsTerminated old → lines_of (old ++ more) ≡ lines_of old ++ lines_of more
unfolding lines_of
lines_of-append [] more t = refl
lines_of-append (c ∷ []) more t = rw t refl
lines_of-append (c ∷ d ∷ old) more t = elim (Bool-cases (c == 10)) [
  | inl e ↦ rw e (ap (λ ls. (c ∷ []) ∷ ls) (lines_of-append (d ∷ old) more t))
  | inr e ↦ rw e (
      ap (on_first_line c) (lines_of-append (d ∷ old) more t)
      ∙ on_first_line-append c (lines_of (d ∷ old)) (lines_of more) (lines_of-ne d old))
]

total-on_first_line :
    (c : ℕ) (lines : List (List ℕ)) → total (on_first_line c lines) ≡ suc (total lines)
total-on_first_line c [] = omega arith
total-on_first_line c (l ∷ lines) = omega arith

-- No byte is lost.
pub total-lines_of : (bytes : List ℕ) → total (lines_of bytes) ≡ length bytes
unfolding lines_of
total-lines_of [] = refl
total-lines_of (c ∷ bytes) = elim (Bool-cases (c == 10)) [
  | inl e ↦ rw e (omega (arith, total-lines_of bytes))
  | inr e ↦ rw e (omega (arith, total-on_first_line c (lines_of bytes), total-lines_of bytes))
]

pub index_lines-append :
    (offset : ℕ) (xs ys : List (List ℕ))
    → index_lines offset (xs ++ ys) ≡ index_lines offset xs ++ index_lines (offset + total xs) ys
unfolding index_lines
index_lines-append offset [] ys = let e : offset + 0 ≡ offset = omega arith in rw e
index_lines-append offset (x ∷ xs) ys = elim (Bool-cases (is_blank x)) [
  | inl b ↦ rw b (index_lines-append (offset + length x) xs ys ∙ moved)
  | inr b ↦ rw b (ap (λ is. offset ∷ is) (index_lines-append (offset + length x) xs ys ∙ moved))
]
  where
    moved :
        index_lines (offset + length x) xs ++ index_lines (offset + length x + total xs) ys
        ≡ index_lines (offset + length x) xs ++ index_lines (offset + (length x + total xs)) ys
    moved =
        let e : offset + length x + total xs ≡ offset + (length x + total xs) = omega arith in rw e
