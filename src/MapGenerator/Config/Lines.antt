-- ===== src/MapGenerator/Config/Lines.antt =====
-- The lines that a text file is read as.
use maze_client.Prelude.{ℕ, ◌≡◌, refl, ap, ◌∙◌, ◌==◌, Bool, false, ◌||◌, List, [], ◌∷◌, ◌++◌, arith}
use maze_client.Prelude.Text.{Text}
use maze_client.MapGenerator.Config.{translate, attach, split_lines, file_lines}
use maze_client.MapGenerator.Config.Clean.{AllNot}

-- A line feed or a return.
abbrev pub is_break : ℕ → Bool
is_break c = c == 10 || c == 13

-- A text with a line feed at its end, and no other break.
abbrev pub IsLine : Text → Type 0
IsLine [] = ⊥
IsLine (c ∷ []) = c ≡ 10
IsLine (c ∷ d ∷ text) = (is_break c ≡ false) × IsLine (d ∷ text)

IsLine-cons : (c : ℕ) (text : Text) → is_break c ≡ false → IsLine text → IsLine (c ∷ text)
IsLine-cons c [] keep h = absurd h
IsLine-cons c (d ∷ text) keep h = (keep, h)

-- Characters that are no breaks, before a line.
pub IsLine-append : (text line : Text) → AllNot is_break text → IsLine line → IsLine (text ++ line)
IsLine-append [] line h l = l
IsLine-append (c ∷ text) line (keep, h) l =
    IsLine-cons c (text ++ line) keep (IsLine-append text line h l)

no_break : (c : ℕ) → is_break c ≡ false → ((c == 10) ≡ false) × ((c == 13) ≡ false)
no_break c h = ground arith

translate-line :
    (line rest : Text) → IsLine line → translate false (line ++ rest) ≡ line ++ translate false rest
unfolding translate
translate-line [] rest h = absurd h
translate-line (c ∷ []) rest h = rw h refl
translate-line (c ∷ d ∷ line) rest (keep, h) =
    let (no_feed, no_return) = no_break c keep in
    rw (no_return, no_feed) (ap (λ t. c ∷ t) (translate-line (d ∷ line) rest h))

split_lines-line :
    (line rest : Text) → IsLine line → split_lines (line ++ rest) ≡ line ∷ split_lines rest
unfolding split_lines
split_lines-line [] rest h = absurd h
split_lines-line (c ∷ []) rest h = rw h refl
split_lines-line (c ∷ d ∷ line) rest (keep, h) =
    rw ((no_break c keep).0) (ap (attach c) (split_lines-line (d ∷ line) rest h))

-- The text of some lines.
abbrev pub join : List Text → Text
join [] = []
join (line ∷ lines) = line ++ join lines

abbrev pub AreLines : List Text → Type 0
AreLines [] = Unit
AreLines (line ∷ lines) = IsLine line × AreLines lines

pub AreLines-append :
    (lines more : List Text) → AreLines lines → AreLines more → AreLines (lines ++ more)
AreLines-append [] more h m = m
AreLines-append (line ∷ lines) more (l, h) m = (l, AreLines-append lines more h m)

pub file_lines-join : (lines : List Text) → AreLines lines → file_lines (join lines) ≡ lines
unfolding file_lines
file_lines-join [] h = refl
file_lines-join (line ∷ lines) (l, h) =
    ap split_lines (translate-line line (join lines) l)
    ∙ split_lines-line line (translate false (join lines)) l
    ∙ ap (λ ls. line ∷ ls) (file_lines-join lines h)
