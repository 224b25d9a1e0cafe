-- ===== src/ReplayService/Settings/Tests.antt =====
-- The configuration's text on small inputs.
use maze_client.Prelude.{ℕ, ◌≡◌, refl, ◌==◌, Bool, ◌||◌, none, some, List, [], ◌∷◌, ◌++◌, inl, inr}
use maze_client.Prelude.Int.{pos}
use maze_client.ReplayService.Config.{strip_inline_comment, strip_quotes, parse_port}
use maze_client.ReplayService.Config.Quoted.{strip_quotes-strip_inline_comment}
use maze_client.Prelude.Text.{chars, Text}
use maze_client.ReplayService.Settings.{read_viz_config}
use maze_client.ReplayService.Settings.Ignored.{read_viz_config-IsIgnored}

abbrev blank_or_tab : ℕ → Bool
blank_or_tab c = c == 32 || c == 9

abbrev config_lines : List Text
config_lines =
    chars "viz: # local" ∷ chars "  output_dir: 'log/#1'" ∷ chars "  server_port: 9004" ∷ []

reads : read_viz_config blank_or_tab config_lines ≡ some (chars "log/#1", chars "9004")
unfolding read_viz_config strip_inline_comment strip_quotes
reads = refl

twice : read_viz_config blank_or_tab (config_lines ++ chars "  server_port: 1" ∷ []) ≡ none
unfolding read_viz_config strip_inline_comment strip_quotes
twice = refl

elsewhere : read_viz_config blank_or_tab (chars "net:" ∷ chars "  server_port: 9004" ∷ []) ≡ none
unfolding read_viz_config strip_inline_comment strip_quotes
elsewhere = refl

open_quote : strip_inline_comment (chars "a 'b # c") ≡ none
unfolding strip_inline_comment
open_quote = refl

one_quote : strip_quotes (chars "'") ≡ none
unfolding strip_quotes
one_quote = refl

highest_port : parse_port (some (pos 65535)) ≡ some 65535
unfolding parse_port
highest_port = refl

too_high : parse_port (some (pos 65536)) ≡ none
unfolding parse_port
too_high = refl

strip_quotes-strip_inline_comment_example :
    (strip_inline_comment (39 ∷ chars "a#\"b" ++ 39 ∷ 35 ∷ chars " note")
      ≡ some (39 ∷ chars "a#\"b" ++ 39 ∷ []))
    × (strip_quotes (39 ∷ chars "a#\"b" ++ 39 ∷ []) ≡ some (chars "a#\"b"))
strip_quotes-strip_inline_comment_example =
    strip_quotes-strip_inline_comment 39 (chars "a#\"b") (chars " note") refl
      (refl, (refl, (refl, (refl, tt))))

read_viz_config-IsIgnored_example :
    read_viz_config blank_or_tab (chars "viz:" ∷ chars " # x" ∷ chars "  output_dir: log" ∷ [])
    ≡ read_viz_config blank_or_tab (chars "viz:" ∷ chars "  output_dir: log" ∷ [])
read_viz_config-IsIgnored_example =
    read_viz_config-IsIgnored blank_or_tab (chars "viz:" ∷ []) (chars "  output_dir: log" ∷ [])
      (chars " # x") (inr (refl, refl, refl, inl refl))
