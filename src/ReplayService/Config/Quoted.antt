-- ===== src/ReplayService/Config/Quoted.antt =====
-- A quoted value: the comment sign and the other quote are plain characters in it.
use maze_client.Prelude.{
  ℕ, ◌≡◌, refl, ap, ◌==◌, ==_iff, true, false, none, some, List, [], ◌∷◌, ◌++◌, arith,
  length-append,
}
use maze_client.ReplayService.Config.{
  is_quote, strip_from, strip_inline_comment, last_of, without_last, strip_quotes,
}

-- The text does not have the character.
abbrev pub IsFree : ℕ → List ℕ → Type 0
IsFree quote [] = Unit {0}
IsFree quote (c ∷ text) = ((c == quote) ≡ false) × IsFree quote text

-- Up to the closing quote, everything is kept.
strip_from-quoted :
    (quote : ℕ) (text rest : List ℕ)
    → IsFree quote text
    → (kept : List ℕ) → strip_from none rest ≡ some kept
    → strip_from (some quote) (text ++ quote ∷ rest) ≡ some (text ++ quote ∷ kept)
unfolding strip_from
strip_from-quoted quote [] rest free kept e = rw ((==_iff quote quote).1 refl) (rw e refl)
strip_from-quoted quote (c ∷ text) rest free kept e =
    rw (free.0) (rw (strip_from-quoted quote text rest free.1 kept e) refl)

last_of-concat : (c d : ℕ) (text : List ℕ) → last_of c (text ++ d ∷ []) ≡ d
last_of-concat c d [] = refl
last_of-concat c d (e ∷ text) = last_of-concat e d text

without_last-concat : (d : ℕ) (text : List ℕ) → without_last (text ++ d ∷ []) ≡ text
without_last-concat d [] = refl
without_last-concat d (c ∷ []) = refl
without_last-concat d (c ∷ e ∷ text) = ap (λ t. c ∷ t) (without_last-concat d (e ∷ text))

strip_quotes-quoted :
    (quote : ℕ) (text : List ℕ)
    → is_quote quote ≡ true
    → strip_quotes (quote ∷ text ++ quote ∷ []) ≡ some text
unfolding strip_quotes
strip_quotes-quoted quote text q =
    rw (last_of-concat quote quote text, without_last-concat quote text)
      (ground (arith, q, length-append text (quote ∷ [])))

-- A value between quotes, with a comment after it, is read back as it is, if the quote is not in it:
-- the comment is cut off, and a comment sign or the other quote in the value stays.
pub strip_quotes-strip_inline_comment :
    (quote : ℕ) (text comment : List ℕ)
    → is_quote quote ≡ true
    → IsFree quote text
    → (strip_inline_comment (quote ∷ text ++ quote ∷ 35 ∷ comment)
        ≡ some (quote ∷ text ++ quote ∷ []))
      × (strip_quotes (quote ∷ text ++ quote ∷ []) ≡ some text)
unfolding strip_inline_comment strip_from
strip_quotes-strip_inline_comment quote text comment q free = (
  rw q (rw (strip_from-quoted quote text (35 ∷ comment) free [] refl) refl),
  strip_quotes-quoted quote text q,
)
