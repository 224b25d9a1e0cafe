-- ===== src/ReplayService/Settings/Ignored.antt =====
-- Lines that the reader of the configuration passes over.
use maze_client.Prelude.{
  ◌>>=◌, ℕ, ◌≡◌, refl, ap, ◌==◌, Bool, true, false, some, List, [], ◌∷◌, ◌++◌, ◌⊎◌, inl, inr,
  Option-cases,
}
use maze_client.ReplayService.Config.{is_quote, strip_inline_comment, strip_from}
use maze_client.Prelude.Text.{split_colon, Text, lstrip, rstrip, strip}
use maze_client.ReplayService.Settings.{
  Fields, read_stripped, read_line, read_lines, read_viz_config, require,
}

module _ (isspace : ℕ → Bool) where
  -- White space, and then nothing or a comment.
  abbrev pub IsIgnored : Text → Type 0
  IsIgnored [] = Unit {0}
  IsIgnored (c ∷ line) =
      (c ≡ 35) ⊎ (isspace c ≡ true) × (is_quote c ≡ false) × ((c == 35) ≡ false) × IsIgnored line

  abbrev AllSpace : Text → Type 0
  AllSpace [] = Unit {0}
  AllSpace (c ∷ line) = (isspace c ≡ true) × AllSpace line

  lstrip-AllSpace : (line : Text) → AllSpace line → lstrip isspace line ≡ []
  unfolding lstrip
  lstrip-AllSpace [] a = refl
  lstrip-AllSpace (c ∷ line) a = rw (a.0) (lstrip-AllSpace line a.1)

  read_stripped-AllSpace :
      (s : Fields) (line : Text) → AllSpace line → read_stripped isspace s line ≡ some s
  unfolding read_stripped strip rstrip split_colon
  read_stripped-AllSpace s line a = rw (read_stripped, strip, lstrip-AllSpace line a) refl

  strip_inline_comment-IsIgnored :
      (line : Text)
      → IsIgnored line
      → (kept : Text) × (strip_inline_comment line ≡ some kept) × AllSpace kept
  unfolding strip_inline_comment strip_from
  strip_inline_comment-IsIgnored [] i = ([], refl, tt)
  strip_inline_comment-IsIgnored (c ∷ line) (inl e) = rw e ([], refl, tt)
  strip_inline_comment-IsIgnored (c ∷ line) (inr (space, plain, other, rest)) =
      let (kept, e, a) = strip_inline_comment-IsIgnored line rest in
      (c ∷ kept, rw (plain, other, e) refl, (space, a))

  read_line-IsIgnored :
      (s : Fields) (line : Text) → IsIgnored line → read_line isspace s line ≡ some s
  unfolding read_line
  read_line-IsIgnored s line i =
      let (kept, e, a) = strip_inline_comment-IsIgnored line i in
      rw (read_line, e) (read_stripped-AllSpace s kept a)

  read_lines-IsIgnored :
      (s : Fields) (before after : List Text) (line : Text)
      → IsIgnored line
      → read_lines isspace s (before ++ line ∷ after) ≡ read_lines isspace s (before ++ after)
  unfolding read_lines
  read_lines-IsIgnored s [] after line i = rw (read_line-IsIgnored s line i) refl
  read_lines-IsIgnored s (first ∷ before) after line i =
      elim (Option-cases (read_line isspace s first)) [
        | inl fails ↦ rw fails refl
        | inr (t, e) ↦ rw e (read_lines-IsIgnored t before after line i)
      ]

-- A line of white space, with or without a comment after it, may stand anywhere in the
-- configuration: the result is the same as without it, an error included. White space is what the
-- given test accepts, less the quotes and the comment sign.
pub read_viz_config-IsIgnored :
    (isspace : ℕ → Bool) (before after : List Text) (line : Text)
    → IsIgnored isspace line
    → read_viz_config isspace (before ++ line ∷ after) ≡ read_viz_config isspace (before ++ after)
unfolding read_viz_config
read_viz_config-IsIgnored isspace before after line i =
    ap (λ o. o >>= require isspace) (read_lines-IsIgnored isspace _ before after line i)
