-- ===== src/ReplayService/Settings.antt =====
-- `_read_viz_config`: the two fields of the section `viz`, from the lines of the configuration.
pub mod Ignored
mod Tests
use maze_client.Prelude.{
  ◌>>=◌, ℕ, ◌==◌, Bool, true, false, ◌&&◌, ◌||◌, not, if◌then◌else◌, Option, none, some, List, [],
  ◌∷◌,
}
use maze_client.Prelude.Text.{Text, same, is_empty, has_indent, split_colon, strip}
use maze_client.ReplayService.Config.{strip_inline_comment, strip_quotes}

abbrev pub output_dir_key : Text
output_dir_key = b'o' ∷ b'u' ∷ b't' ∷ b'p' ∷ b'u' ∷ b't' ∷ b'_' ∷ b'd' ∷ b'i' ∷ b'r' ∷ []

abbrev pub server_port_key : Text
server_port_key = b's' ∷ b'e' ∷ b'r' ∷ b'v' ∷ b'e' ∷ b'r' ∷ b'_' ∷ b'p' ∷ b'o' ∷ b'r' ∷ b't' ∷ []

abbrev pub viz_section : Text
viz_section = b'v' ∷ b'i' ∷ b'z' ∷ []

-- The values so far and the section.
pub record Fields : Type 0 where
  pub current_section : Text
  pub output_dir : Option Text
  pub server_port : Option Text

-- A field of the section, which may come once.
unfoldable pub set_field : Fields → Text → Text → Option Fields
set_field s key value =
    if same key output_dir_key
    then elim s.output_dir [
      | some old ↦ none
      | none ↦ strip_quotes value >>= λ v. some (record s { output_dir = some v })
    ]
    else if same key server_port_key
    then elim s.server_port [
      | some old ↦ none
      | none ↦ strip_quotes value >>= λ v. some (record s { server_port = some v })
    ]
    else some s

-- The guards of the loop, after the split.
unfoldable pub place : Fields → Bool → Text → Text → Option Fields
unfolding set_field same
place s indented key value =
    if not indented && is_empty value
    then some (record s { current_section = key })
    else if not indented || not (same s.current_section viz_section)
    then some s
    else set_field s key value

-- `isspace` tells the characters that `strip` removes.
module _ (isspace : ℕ → Bool) where
  -- A line once its comment is cut off. One that is blank has no colon either.
  unfoldable pub read_stripped : Fields → Text → Option Fields
  unfolding strip split_colon place
  read_stripped s line = elim (split_colon (strip isspace line)) [
    | none ↦ some s
    | some (key, value) ↦ place s (has_indent line) (strip isspace key) (strip isspace value)
  ]

  unfoldable pub read_line : Fields → Text → Option Fields
  unfolding read_stripped
  read_line s raw_line = strip_inline_comment raw_line >>= read_stripped s

  unfoldable pub read_lines : Fields → List Text → Option Fields
  unfolding read_line
  read_lines s [] = some s
  read_lines s (line ∷ lines) = read_line s line >>= λ t. read_lines t lines

  -- Both fields must be there, and not empty.
  unfoldable pub require : Fields → Option (Text × Text)
  require s = elim s.output_dir [
    | none ↦ none
    | some dir ↦ elim s.server_port [
      | none ↦ none
      | some port ↦ if is_empty dir || is_empty port then none else some (dir, port)
    ]
  ]

  unfoldable pub read_viz_config : List Text → Option (Text × Text)
  unfolding read_lines require
  read_viz_config lines =
      read_lines (record { current_section = []; output_dir = none; server_port = none }) lines
      >>= require
