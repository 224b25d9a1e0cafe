-- ===== src/ReplayService/Config.antt =====
-- The text of the client's configuration: `_strip_inline_comment`, `_strip_quotes` and `_parse_port`.
-- Texts are lists of characters; `none` is the ReplayServiceError.
pub mod Quoted
use maze_client.Prelude.{
  ℕ, zero, suc, ◌==◌, leb, Bool, true, false, ◌&&◌, ◌||◌, not, if◌then◌else◌, Option, none, some,
  List, [], ◌∷◌, length,
}
use maze_client.Prelude.Int.{ℤ, pos, negsuc}

-- `character in ("'", '"')`
abbrev pub is_quote : ℕ → Bool
is_quote c = c == 39 || c == 34

-- A character in front of a text that may be an error.
abbrev pub keep : ℕ → Option (List ℕ) → Option (List ℕ)
keep c none = none
keep c (some text) = some (c ∷ text)

-- The loop over the characters, with the open quote: what stands before a comment.
unfoldable pub strip_from : Option ℕ → List ℕ → Option (List ℕ)
strip_from none [] = some []
strip_from (some quote) [] = none
strip_from (some quote) (c ∷ line) =
    let closed = strip_from none line in
    let inside = strip_from (some quote) line in keep c (if c == quote then closed else inside)
strip_from none (c ∷ line) =
    let quoted = strip_from (some c) line in
    let plain = strip_from none line in
    if is_quote c then keep c quoted else if c == 35 then some [] else keep c plain

unfoldable pub strip_inline_comment : List ℕ → Option (List ℕ)
unfolding strip_from
strip_inline_comment = strip_from none

-- `value[-1]` and `value[1:-1]`, of a text that is not empty.
abbrev pub last_of : ℕ → List ℕ → ℕ
last_of c [] = c
last_of c (d ∷ text) = last_of d text

abbrev pub without_last : List ℕ → List ℕ
without_last [] = []
without_last (c ∷ []) = []
without_last (c ∷ d ∷ text) = c ∷ without_last (d ∷ text)

unfoldable pub strip_quotes : List ℕ → Option (List ℕ)
strip_quotes [] = some []
strip_quotes (c ∷ text) =
    let last = last_of c text in
    if is_quote c || is_quote last
    then (if leb (length text) 0 || not (c == last) then none else some (without_last text))
    else some (c ∷ text)

-- The checks of `_parse_port` on what `int` gives, with `none` for its exception.
unfoldable pub parse_port : Option ℤ → Option ℕ
parse_port none = none
parse_port (some (negsuc n)) = none
parse_port (some (pos n)) = if n == 0 || not (leb n 65535) then none else some n
