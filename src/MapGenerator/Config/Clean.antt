-- ===== src/MapGenerator/Config/Clean.antt =====
-- Texts that `strip`, `split_colon` and the search for a comment leave alone.
use maze_client.Prelude.{
  ℕ, ◌≡◌, refl, ap, ◌∙◌, ◌==◌, Bool, true, false, ◌&&◌, ◌||◌, some, [], ◌∷◌, ◌++◌, arith,
}
use maze_client.Prelude.Text.{Text, is_empty, split_colon, lstrip, rstrip, strip}
use maze_client.MapGenerator.Config.{is_quote, strip_comment}

-- No character of the text is one of these.
abbrev pub AllNot : (ℕ → Bool) → Text → Type 0
AllNot p [] = Unit
AllNot p (c ∷ text) = (p c ≡ false) × AllNot p text

rstrip-AllNot : (p : ℕ → Bool) (text : Text) → AllNot p text → rstrip p text ≡ text
unfolding rstrip
rstrip-AllNot p [] h = refl
rstrip-AllNot p (c ∷ text) (keep, h) = rw (rstrip-AllNot p text h, keep) refl

lstrip-keep : (p : ℕ → Bool) (c : ℕ) (text : Text) → p c ≡ false → lstrip p (c ∷ text) ≡ c ∷ text
unfolding lstrip
lstrip-keep p c text keep = rw keep refl

pub strip-AllNot : (p : ℕ → Bool) (text : Text) → AllNot p text → strip p text ≡ text
unfolding strip lstrip
strip-AllNot p [] h = refl
strip-AllNot p (c ∷ text) (keep, h) =
    ap (rstrip p) (lstrip-keep p c text keep) ∙ rstrip-AllNot p (c ∷ text) (keep, h)

pub is_empty-append : (text : Text) (c : ℕ) (rest : Text) → is_empty (text ++ c ∷ rest) ≡ false
is_empty-append [] c rest = refl
is_empty-append (d ∷ text) c rest = refl

and_false : (b : Bool) → (b && false) ≡ false
and_false true = refl
and_false false = refl

-- A text that ends in a character that stays.
rstrip-keep :
    (p : ℕ → Bool) (text : Text) (c : ℕ) → p c ≡ false → rstrip p (text ++ c ∷ []) ≡ text ++ c ∷ []
unfolding rstrip
rstrip-keep p [] c keep = rw keep refl
rstrip-keep p (d ∷ text) c keep =
    rw (rstrip-keep p text c keep, is_empty-append text c [], and_false (p d)) refl

-- One that ends in a character that goes.
rstrip-drop :
    (p : ℕ → Bool) (text : Text) (c : ℕ) → p c ≡ true → rstrip p (text ++ c ∷ []) ≡ rstrip p text
unfolding rstrip
rstrip-drop p [] c drop = rw drop refl
rstrip-drop p (d ∷ text) c drop = rw (rstrip-drop p text c drop) refl

-- `strip` takes one character after a text whose first and last stay.
pub strip-drop :
    (p : ℕ → Bool) (first : ℕ) (text : Text) (last after : ℕ)
    → p first ≡ false
    → p last ≡ false
    → p after ≡ true
    → strip p (first ∷ (text ++ last ∷ []) ++ after ∷ []) ≡ first ∷ (text ++ last ∷ [])
unfolding strip
strip-drop p first text last after keep_first keep_last drop =
    ap (rstrip p) (lstrip-keep p first ((text ++ last ∷ []) ++ after ∷ []) keep_first)
    ∙ rstrip-drop p (first ∷ (text ++ last ∷ [])) after drop
    ∙ rstrip-keep p (first ∷ text) last keep_last

-- And one before such a text.
pub strip-skip :
    (p : ℕ → Bool) (before : ℕ) (text : Text)
    → p before ≡ true
    → strip p (before ∷ text) ≡ strip p text
unfolding strip lstrip
strip-skip p before text skip = rw skip refl

-- A text between two characters that stay.
pub strip-between :
    (p : ℕ → Bool) (first : ℕ) (text : Text) (last : ℕ)
    → p first ≡ false
    → p last ≡ false
    → strip p (first ∷ (text ++ last ∷ [])) ≡ first ∷ (text ++ last ∷ [])
unfolding strip
strip-between p first text last keep_first keep_last =
    ap (rstrip p) (lstrip-keep p first (text ++ last ∷ []) keep_first)
    ∙ rstrip-keep p (first ∷ text) last keep_last

-- One character that goes on either side of a text that stays.
pub strip-around :
    (p : ℕ → Bool) (around : ℕ) (text : Text)
    → p around ≡ true
    → AllNot p text
    → strip p (around ∷ (text ++ around ∷ [])) ≡ text
unfolding strip lstrip
strip-around p around [] goes h = rw goes refl
strip-around p around (c ∷ text) goes (keep, h) =
    strip-skip p around (c ∷ (text ++ around ∷ [])) goes
    ∙ ap (rstrip p) (lstrip-keep p c (text ++ around ∷ []) keep)
    ∙ rstrip-drop p (c ∷ text) around goes
    ∙ rstrip-AllNot p (c ∷ text) (keep, h)

abbrev pub is_colon : ℕ → Bool
is_colon c = c == 58

pub split_colon-AllNot :
    (key rest : Text) → AllNot is_colon key → split_colon (key ++ 58 ∷ rest) ≡ some (key, rest)
unfolding split_colon
split_colon-AllNot [] rest h = refl
split_colon-AllNot (c ∷ key) rest (differs, h) = rw (differs, split_colon-AllNot key rest h) refl

-- What starts no comment and neither opens nor closes a quote.
abbrev pub is_mark : ℕ → Bool
is_mark c = is_quote c || c == 35

pub or_false : {a b : Bool} → (a || b) ≡ false → (a ≡ false) × (b ≡ false)
or_false h = ground arith

pub strip_comment-AllNot :
    (text rest : Text)
    → AllNot is_mark text
    → strip_comment false (text ++ rest) ≡ text ++ strip_comment false rest
unfolding strip_comment
strip_comment-AllNot [] rest h = refl
strip_comment-AllNot (c ∷ text) rest (plain, h) =
    let (no_quote, no_hash) = or_false {a = is_quote c} plain in
    rw (no_quote, no_hash, strip_comment-AllNot text rest h) refl

pub strip_comment-quoted :
    (text rest : Text)
    → AllNot is_quote text
    → strip_comment true (text ++ 34 ∷ rest) ≡ text ++ 34 ∷ strip_comment false rest
unfolding strip_comment
strip_comment-quoted [] rest h = refl
strip_comment-quoted (c ∷ text) rest (plain, h) =
    rw (plain, and_false (c == 35), strip_comment-quoted text rest h) refl
