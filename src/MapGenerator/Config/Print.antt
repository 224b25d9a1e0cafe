-- ===== src/MapGenerator/Config/Print.antt =====
-- Sections as lines of a file, and what `load_config` makes of one such line.
use mathlib.Core.List.{append_assoc}
use maze_client.Prelude.{
  ℕ, ◌≡◌, refl, sym, ap, ◌∙◌, ◌==◌, ==_iff, Bool, true, false, ◌||◌, Bool-cases, some, [], ◌∷◌,
  ◌++◌, inl, inr, arith,
}
use maze_client.Prelude.Text.{Text, split_colon, strip}
use maze_client.MapGenerator.Config.{
  Reading, put, put_entry, place, is_quote, strip_comment, strip_value, read_parts, read_stripped,
  read_line,
}
use maze_client.MapGenerator.Config.Lines.{is_break}
use maze_client.MapGenerator.Config.Clean.{
  AllNot, strip-AllNot, strip-drop, strip-skip, strip-between, strip-around, is_colon,
  split_colon-AllNot, is_mark, or_false, strip_comment-AllNot, strip_comment-quoted,
}

abbrev pub section_line : Text → Text
section_line name = name ++ 58 ∷ 10 ∷ []

-- `  key: "val"`
abbrev pub entry_line : Text × Text → Text
entry_line (key, val) = 32 ∷ 32 ∷ (key ++ 58 ∷ 32 ∷ 34 ∷ (val ++ 34 ∷ 10 ∷ []))

-- The white space of Python, as far as the lines need it.
pub record IsSpace (isspace : ℕ → Bool) : Type 0 where
  pub tab : isspace 9 ≡ true
  pub line_break : isspace 10 ≡ true
  pub return : isspace 13 ≡ true
  pub blank : isspace 32 ≡ true
  pub quote : isspace 34 ≡ false
  pub colon : isspace 58 ≡ false

AllNot-weaken :
    (p q : ℕ → Bool) (text : Text)
    → ((c : ℕ) → p c ≡ false → q c ≡ false)
    → AllNot p text
    → AllNot q text
AllNot-weaken p q [] f h = tt
AllNot-weaken p q (c ∷ text) f (keep, h) = (f c keep, AllNot-weaken p q text f h)

module _ (isspace : ℕ → Bool) (w : IsSpace isspace) where
  -- What no name and no key holds.
  abbrev pub is_special : ℕ → Bool
  is_special c = is_mark c || (is_colon c || isspace c)

  -- A name of a section, or a key: at least one character, and none of the special ones.
  abbrev pub IsName : Text → Type 0
  IsName [] = ⊥
  IsName (c ∷ name) = AllNot is_special (c ∷ name)

  no_mark : (name : Text) → AllNot is_special name → AllNot is_mark name
  no_mark name = AllNot-weaken is_special is_mark name λ c h. (or_false {a = is_mark c} h).0

  no_colon : (name : Text) → AllNot is_special name → AllNot is_colon name
  no_colon name =
      AllNot-weaken is_special is_colon name
        λ c h. (or_false {a = is_colon c} (or_false {a = is_mark c} h).1).0

  no_space : (name : Text) → AllNot is_special name → AllNot isspace name
  no_space name =
      AllNot-weaken is_special isspace name
        λ c h. (or_false {a = is_colon c} (or_false {a = is_mark c} h).1).1

  -- A character that is no white space is no indent.
  no_indent : (c : ℕ) → isspace c ≡ false → (c == 32 || c == 9) ≡ false
  no_indent c h = elim (Bool-cases (c == 32 || c == 9)) [
    | inr outside ↦ outside
    | inl yes_indent ↦ elim (Bool-cases (c == 32)) [
      | inl blank ↦ ground (arith, sym (ap isspace ((==_iff c 32).0 blank)) ∙ h, w.blank)
      | inr other ↦ elim (Bool-cases (c == 9)) [
        | inl tab ↦ ground (arith, sym (ap isspace ((==_iff c 9).0 tab)) ∙ h, w.tab)
        | inr none_of ↦ ground (arith, other, none_of)
      ]
    ]
  ]

  unbroken : (c : ℕ) → isspace c ≡ false → is_break c ≡ false
  unbroken c h = elim (Bool-cases (c == 10)) [
    | inl feed ↦ ground (arith, sym (ap isspace ((==_iff c 10).0 feed)) ∙ h, w.line_break)
    | inr other ↦ elim (Bool-cases (c == 13)) [
      | inl back ↦ ground (arith, sym (ap isspace ((==_iff c 13).0 back)) ∙ h, w.return)
      | inr none_of ↦ ground (arith, other, none_of)
    ]
  ]

  -- A name has no line break.
  pub IsName-unbroken : (name : Text) → IsName name → AllNot is_break name
  IsName-unbroken [] h = absurd h
  IsName-unbroken (c ∷ name) h =
      AllNot-weaken isspace is_break (c ∷ name) unbroken (no_space (c ∷ name) h)

  strip-section_line :
      (c : ℕ) (name : Text)
      → isspace c ≡ false
      → strip isspace (section_line (c ∷ name)) ≡ (c ∷ name) ++ 58 ∷ []
  strip-section_line c name keep =
      ap (λ t. strip isspace (c ∷ t)) (sym (append_assoc name (58 ∷ []) (10 ∷ [])))
      ∙ strip-drop isspace c name 58 10 keep w.colon w.line_break

  read_stripped-section :
      (s : Reading) (c : ℕ) (name : Text)
      → IsName (c ∷ name)
      → read_stripped isspace s (section_line (c ∷ name))
        ≡ record { config = put (c ∷ name) [] s.config; current_section = some (c ∷ name) }
  unfolding read_stripped read_parts place strip_value strip
  read_stripped-section s c name h =
      let spaces = no_space (c ∷ name) h in
      ap (λ t. read_parts isspace s (c == 32 || c == 9) (split_colon t))
        (strip-section_line c name spaces.0)
      ∙ ap (read_parts isspace s (c == 32 || c == 9))
          (split_colon-AllNot (c ∷ name) [] (no_colon (c ∷ name) h))
      ∙ ap (λ b. read_parts isspace s b (some (c ∷ name, []))) (no_indent c spaces.0)
      ∙ ap (λ t. place s false t []) (strip-AllNot isspace (c ∷ name) spaces)

  pub read_line-section :
      (s : Reading) (name : Text)
      → IsName name
      → read_line isspace s (section_line name)
        ≡ record { config = put name [] s.config; current_section = some name }
  unfolding read_line strip_comment
  read_line-section s [] h = absurd h
  read_line-section s (c ∷ name) h =
      ap (read_stripped isspace s)
        (strip_comment-AllNot (c ∷ name) (58 ∷ 10 ∷ []) (no_mark (c ∷ name) h))
      ∙ read_stripped-section s c name h

  -- The text behind the colon of an entry.
  abbrev quoted : Text → Text
  quoted val = 32 ∷ 34 ∷ (val ++ 34 ∷ [])

  strip-entry_line :
      (c : ℕ) (key val : Text)
      → isspace c ≡ false
      → strip isspace (entry_line (c ∷ key, val)) ≡ (c ∷ key) ++ 58 ∷ quoted val
  strip-entry_line c key val keep =
      strip-skip isspace 32 (32 ∷ c ∷ rest_of) w.blank
      ∙ strip-skip isspace 32 (c ∷ rest_of) w.blank
      ∙ ap (λ t. strip isspace (c ∷ t))
          (sym (
            append_assoc (key ++ 58 ∷ 32 ∷ 34 ∷ val) (34 ∷ []) (10 ∷ [])
            ∙ append_assoc key (58 ∷ 32 ∷ 34 ∷ val) (34 ∷ 10 ∷ [])))
      ∙ strip-drop isspace c (key ++ 58 ∷ 32 ∷ 34 ∷ val) 34 10 keep w.quote w.line_break
      ∙ ap (λ t. c ∷ t) (append_assoc key (58 ∷ 32 ∷ 34 ∷ val) (34 ∷ []))
    where
      rest_of : Text
      rest_of = key ++ 58 ∷ 32 ∷ 34 ∷ (val ++ 34 ∷ 10 ∷ [])

  strip_value-quoted : (val : Text) → AllNot is_quote val → strip_value isspace (quoted val) ≡ val
  unfolding strip_value
  strip_value-quoted val plain =
      ap (λ t. strip (λ c. c == 39) (strip (λ c. c == 34) t))
        (strip-skip isspace 32 (34 ∷ (val ++ 34 ∷ [])) w.blank
          ∙ strip-between isspace 34 val 34 w.quote w.quote)
      ∙ ap (strip (λ c. c == 39)) (
          strip-around (λ c. c == 34) 34 val refl
            (AllNot-weaken is_quote (λ c. c == 34) val (λ c h. (or_false {a = c == 34} h).0) plain))
      ∙ strip-AllNot (λ c. c == 39) val
          (AllNot-weaken is_quote (λ c. c == 39) val (λ c h. (or_false {a = c == 34} h).1) plain)

  strip_comment-entry_line :
      (key val : Text)
      → AllNot is_special key
      → AllNot is_quote val
      → strip_comment false (entry_line (key, val)) ≡ entry_line (key, val)
  unfolding strip_comment
  strip_comment-entry_line key val h plain =
      ap (λ t. 32 ∷ 32 ∷ t)
        (strip_comment-AllNot key (58 ∷ 32 ∷ 34 ∷ (val ++ 34 ∷ 10 ∷ [])) (no_mark key h)
          ∙ ap (λ t. key ++ 58 ∷ 32 ∷ 34 ∷ t) (strip_comment-quoted val (10 ∷ []) plain))

  pub read_line-entry :
      (s : Reading) (key val : Text)
      → IsName key
      → AllNot is_quote val
      → read_line isspace s (entry_line (key, val)) ≡ put_entry s s.current_section key val
  unfolding read_line read_stripped read_parts place
  read_line-entry s [] val h plain = absurd h
  read_line-entry s (c ∷ key) val h plain =
      ap (read_stripped isspace s) (strip_comment-entry_line (c ∷ key) val h plain)
      ∙ ap (λ t. read_parts isspace s true (split_colon t))
          (strip-entry_line c key val (no_space (c ∷ key) h).0)
      ∙ ap (read_parts isspace s true)
          (split_colon-AllNot (c ∷ key) (quoted val) (no_colon (c ∷ key) h))
      ∙ ap (λ t. place s true t (strip_value isspace (quoted val)))
          (strip-AllNot isspace (c ∷ key) (no_space (c ∷ key) h))
      ∙ ap (place s true (c ∷ key)) (strip_value-quoted val plain)
