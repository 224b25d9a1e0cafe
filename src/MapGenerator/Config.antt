-- ===== src/MapGenerator/Config.antt =====
-- `load_config` and `get_config_value`: sections of keys and values, from the text of the file.
pub mod Clean
mod Lines
pub mod Print
pub mod RoundTrip
use maze_client.Prelude.{
  ◌>>=◌, ℕ, ◌==◌, Bool, true, false, ◌&&◌, ◌||◌, not, if◌then◌else◌, Option, none, some, List, [],
  ◌∷◌,
}
use maze_client.Prelude.Text.{Text, same, is_empty, has_indent, split_colon, strip}

-- A dictionary, in the order in which its keys came.
abbrev pub Dict : Type 0 → Type 0
Dict V = List (Text × V)

abbrev pub Section : Type 0
Section = Dict Text

abbrev pub Config : Type 0
Config = Dict Section

-- `d[key] = value`
unfoldable pub put : {V : Type 0} → Text → V → Dict V → Dict V
unfolding same
put key value [] = (key, value) ∷ []
put key value ((k, v) ∷ d) =
    let rest = put key value d in if same key k then (k, value) ∷ d else (k, v) ∷ rest

-- `d.get(key)`
unfoldable pub get : {V : Type 0} → Text → Dict V → Option V
unfolding same
get key [] = none
get key ((k, v) ∷ d) = let rest = get key d in if same key k then some v else rest

-- `ch in ('"', "'")`
abbrev pub is_quote : ℕ → Bool
is_quote c = c == 34 || c == 39

-- The line breaks of a text file as it is read: a return, with a line feed after it or not, becomes a
-- line feed. The flag is set behind a return.
unfoldable pub translate : Bool → Text → Text
translate after_return [] = []
translate after_return (c ∷ text) =
    let fresh = translate true text in
    let rest = translate false text in
    if c == 13 then 10 ∷ fresh else if c == 10 && after_return then rest else c ∷ rest

abbrev pub attach : ℕ → List Text → List Text
attach c [] = (c ∷ []) ∷ []
attach c (line ∷ lines) = (c ∷ line) ∷ lines

-- The lines, each up to its line feed.
unfoldable pub split_lines : Text → List Text
split_lines [] = []
split_lines (c ∷ text) =
    let lines = split_lines text in if c == 10 then (c ∷ []) ∷ lines else attach c lines

-- `for line in f`
unfoldable pub file_lines : Text → List Text
unfolding translate split_lines
file_lines text = split_lines (translate false text)

-- What is left of a line before its comment. Either quote opens and closes.
unfoldable pub strip_comment : Bool → Text → Text
strip_comment in_quotes [] = []
strip_comment in_quotes (c ∷ line) =
    let after_quote = strip_comment (not in_quotes) line in
    let after_other = strip_comment in_quotes line in
    if is_quote c then c ∷ after_quote else if c == 35 && not in_quotes then [] else c ∷ after_other

-- The configuration so far, and the section.
pub record Reading : Type 0 where
  pub config : Config
  pub current_section : Option Text

-- `config[current_section][key] = val`, of a section that is there.
unfoldable pub put_in : Text → Text → Text → Config → Config
unfolding put
put_in section key val [] = []
put_in section key val ((name, entries) ∷ config) =
    let rest = put_in section key val config in
    if same section name then (name, put key val entries) ∷ config else (name, entries) ∷ rest

-- `current_section and key`
unfoldable pub put_entry : Reading → Option Text → Text → Text → Reading
unfolding put_in
put_entry s none key val = s
put_entry s (some section) key val =
    if is_empty section || is_empty key
    then s
    else record s { config = put_in section key val s.config }

-- The end of the loop's body, for a line with its indent, key and value.
unfoldable pub place : Reading → Bool → Text → Text → Reading
unfolding put put_entry
place s indented key val =
    if not indented && is_empty val
    then record { config = put key [] s.config; current_section = some key }
    else if indented
    then put_entry s s.current_section key val
    else s

-- `isspace` tells the characters that `strip` removes.
module _ (isspace : ℕ → Bool) where
  -- `text.strip().strip('"').strip("'")`
  unfoldable pub strip_value : Text → Text
  unfolding strip
  strip_value text = strip (λ c. c == 39) (strip (λ c. c == 34) (strip isspace text))

  -- What the split gives, of a line with this indent.
  unfoldable pub read_parts : Reading → Bool → Option (Text × Text) → Reading
  unfolding strip_value place
  read_parts s indented none = s
  read_parts s indented (some (key, val)) = place s indented (strip isspace key) (strip_value val)

  -- A line without its comment. One that is blank has no colon either.
  unfoldable pub read_stripped : Reading → Text → Reading
  unfolding split_colon read_parts strip
  read_stripped s line = read_parts s (has_indent line) (split_colon (strip isspace line))

  unfoldable pub read_line : Reading → Text → Reading
  unfolding read_stripped strip_comment
  read_line s line = read_stripped s (strip_comment false line)

  unfoldable pub read_lines : Reading → List Text → Reading
  unfolding read_line
  read_lines s [] = s
  read_lines s (line ∷ lines) = read_lines (read_line s line) lines

  -- The text of the file; `none` is a file that does not exist.
  unfoldable pub load_config : Option Text → Config
  unfolding read_lines file_lines
  load_config none = []
  load_config (some text) =
      (read_lines (record { config = []; current_section = none }) (file_lines text)).config

-- `config.get(section, {}).get(key, "")`
unfoldable pub value_of : Config → Text → Text → Option Text
unfolding get
value_of config section key = get section config >>= get key

-- `none` of `type_fn` is its ValueError or TypeError.
unfoldable pub get_config_value : {A : Type 0} → Config → Text → Text → A → (Text → Option A) → A
unfolding value_of
get_config_value config section key default type_fn =
    elim (value_of config section key >>= λ val. if is_empty val then none else type_fn val) [
      | none ↦ default
      | some a ↦ a
    ]
