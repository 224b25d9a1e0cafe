-- ===== src/Prelude/Text.antt =====
-- Texts as lists of characters, with what Python's `==`, `strip` and tests for an indent do.
use Prim.Native.Char.{code}
use Prim.Native.String.{String}
use maze_client.Prelude.{
  ℕ, ◌==◌, Bool, true, false, ◌&&◌, ◌||◌, if◌then◌else◌, Option, none, some, List, [], ◌∷◌,
}

abbrev pub Text : Type 0
Text = List ℕ

unfoldable pub same : Text → Text → Bool
same [] [] = true
same [] (c ∷ b) = false
same (c ∷ a) [] = false
same (c ∷ a) (d ∷ b) = c == d && same a b

abbrev pub is_empty : Text → Bool
is_empty [] = true
is_empty (c ∷ text) = false

-- The two parts of a text around its first colon; `none` if there is none.
unfoldable pub split_colon : Text → Option (Text × Text)
split_colon [] = none
split_colon (c ∷ text) =
    if c == 58
    then some ([], text)
    else elim (split_colon text) [ none ↦ none | some (key, value) ↦ some (c ∷ key, value) ]

-- `line[0] in (" ", "\t")`
abbrev pub has_indent : Text → Bool
has_indent [] = false
has_indent (c ∷ line) = c == 32 || c == 9

-- The characters of a literal.
abbrev pub chars : String → Text
chars String.[] = []
chars (String.◌∷◌ c rest) = code c ∷ chars rest

-- `isspace` tells the characters that `strip` removes.
module _ (isspace : ℕ → Bool) where
  unfoldable pub lstrip : Text → Text
  lstrip [] = []
  lstrip (c ∷ text) = let rest = lstrip text in if isspace c then rest else c ∷ text

  unfoldable pub rstrip : Text → Text
  rstrip [] = []
  rstrip (c ∷ text) = let rest = rstrip text in if isspace c && is_empty rest then [] else c ∷ rest

  unfoldable pub strip : Text → Text
  unfolding lstrip rstrip
  strip text = rstrip (lstrip text)
