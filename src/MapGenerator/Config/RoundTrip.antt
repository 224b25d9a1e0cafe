-- ===== src/MapGenerator/Config/RoundTrip.antt =====
-- A configuration that is written section by section is read back.
use mathlib.Core.List.{append_assoc, append-nil}
use maze_client.Prelude.{
  ℕ, ◌≡◌, refl, sym, ap, ◌∙◌, ==_iff, Bool, true, false, Option, none, some, List, [], ◌∷◌, ◌++◌,
}
use maze_client.Prelude.Text.{Text, same}
use maze_client.MapGenerator.Config.{
  Dict, Section, Config, Reading, put, put_in, put_entry, is_quote, read_line, read_lines,
  load_config,
}
use maze_client.MapGenerator.Config.Clean.{AllNot}
use maze_client.MapGenerator.Config.Lines.{
  is_break, IsLine, IsLine-append, join, AreLines, AreLines-append, file_lines-join,
}
use maze_client.MapGenerator.Config.Print.{
  IsName-unbroken, section_line, entry_line, IsSpace, IsName, read_line-section, read_line-entry,
}

-- The key is not in the dictionary.
abbrev pub Absent : {V : Type 0} → Text → Dict V → Type 0
Absent key [] = Unit
Absent key ((k, v) ∷ d) = (same key k ≡ false) × Absent key d

same_refl : (text : Text) → same text text ≡ true
unfolding same
same_refl [] = refl
same_refl (c ∷ text) = rw ((==_iff c c).1 refl, same_refl text) refl

put-Absent :
    {V : Type 0} (key : Text) (v : V) (d : Dict V) → Absent key d → put key v d ≡ d ++ (key, v) ∷ []
unfolding put
put-Absent key v [] h = refl
put-Absent key v ((k, u) ∷ d) (differs, h) = rw (differs, put-Absent key v d h) refl

put_in-last :
    (section key val : Text) (done : Config) (entries : Section)
    → Absent section done
    → put_in section key val (done ++ (section, entries) ∷ [])
      ≡ done ++ (section, put key val entries) ∷ []
unfolding put_in
put_in-last section key val [] entries h = rw (same_refl section) refl
put_in-last section key val ((name, es) ∷ done) entries (differs, h) =
    rw (differs, put_in-last section key val done entries h) refl

abbrev reading : Config → Option Text → Reading
reading config current = record { config = config; current_section = current }

-- The lines of a configuration.
abbrev pub print_entries : Section → List Text
print_entries [] = []
print_entries (entry ∷ entries) = entry_line entry ∷ print_entries entries

abbrev pub print_config : Config → List Text
print_config [] = []
print_config ((name, entries) ∷ config) =
    section_line name ∷ (print_entries entries ++ print_config config)

module _ (isspace : ℕ → Bool) (w : IsSpace isspace) where
  -- Entries behind others: names as keys, each new, and values without quotes and line breaks.
  abbrev pub AreEntries : Section → Section → Type 0
  AreEntries before [] = Unit
  AreEntries before ((key, val) ∷ entries) =
      IsName isspace w key
      × AllNot is_quote val
      × AllNot is_break val
      × Absent key before
      × AreEntries (before ++ (key, val) ∷ []) entries

  -- Sections behind others: each has a new name.
  abbrev pub AreSections : Config → Config → Type 0
  AreSections done [] = Unit
  AreSections done ((name, entries) ∷ config) =
      IsName isspace w name
      × Absent name done
      × AreEntries [] entries
      × AreSections (done ++ (name, entries) ∷ []) config

  read_lines-append :
      (s : Reading) (lines more : List Text)
      → read_lines isspace s (lines ++ more) ≡ read_lines isspace (read_lines isspace s lines) more
  unfolding read_lines
  read_lines-append s [] more = refl
  read_lines-append s (line ∷ lines) more = read_lines-append (read_line isspace s line) lines more

  put_entry-name :
      (s : Reading) (section key val : Text)
      → IsName isspace w section
      → IsName isspace w key
      → put_entry s (some section) key val ≡ record s { config = put_in section key val s.config }
  unfolding put_entry
  put_entry-name s [] key val h k = absurd h
  put_entry-name s (c ∷ section) [] val h k = absurd k
  put_entry-name s (c ∷ section) (d ∷ key) val h k = refl

  read_lines-entries :
      (name : Text) (done : Config) (before entries : Section)
      → IsName isspace w name
      → Absent name done
      → AreEntries before entries
      → read_lines isspace
          (reading (done ++ (name, before) ∷ []) (some name))
          (print_entries entries)
        ≡ reading (done ++ (name, before ++ entries) ∷ []) (some name)
  unfolding read_lines
  read_lines-entries name done before [] n a h =
      ap (λ es. reading (done ++ (name, es) ∷ []) (some name)) (sym (append-nil before))
  read_lines-entries name done before ((key, val) ∷ entries) n a (k, plain, whole, new, h) =
      ap (λ s. read_lines isspace s (print_entries entries)) step
      ∙ read_lines-entries name done (before ++ (key, val) ∷ []) entries n a h
      ∙ ap (λ es. reading (done ++ (name, es) ∷ []) (some name))
          (append_assoc before ((key, val) ∷ []) entries)
    where
      s : Reading
      s = reading (done ++ (name, before) ∷ []) (some name)

      step :
          read_line isspace s (entry_line (key, val))
          ≡ reading (done ++ (name, before ++ (key, val) ∷ []) ∷ []) (some name)
      step =
          read_line-entry isspace w s key val k plain
          ∙ put_entry-name s name key val n k
          ∙ ap (λ config. reading config (some name))
              (put_in-last name key val done before a
                ∙ ap (λ es. done ++ (name, es) ∷ []) (put-Absent key val before new))

  read_lines-sections :
      (done config : Config) (current : Option Text)
      → AreSections done config
      → (read_lines isspace (reading done current) (print_config config)).config ≡ done ++ config
  unfolding read_lines
  read_lines-sections done [] current h = sym (append-nil done)
  read_lines-sections done ((name, entries) ∷ config) current (n, new, es, h) =
      ap (λ s. (read_lines isspace s (print_entries entries ++ print_config config)).config)
        (read_line-section isspace w (reading done current) name n
          ∙ ap (λ c. reading c (some name)) (put-Absent name [] done new))
      ∙ ap (λ s. s.config)
          (read_lines-append (reading (done ++ (name, []) ∷ []) (some name)) (print_entries entries)
            (print_config config))
      ∙ ap (λ s. (read_lines isspace s (print_config config)).config)
          (read_lines-entries name done [] entries n new es)
      ∙ read_lines-sections (done ++ (name, entries) ∷ []) config (some name) h
      ∙ append_assoc done ((name, entries) ∷ []) config

  section_line-IsLine : (name : Text) → IsName isspace w name → IsLine (section_line name)
  section_line-IsLine name h =
      IsLine-append name (58 ∷ 10 ∷ []) (IsName-unbroken isspace w name h) (refl, refl)

  entry_line-IsLine :
      (key val : Text) → IsName isspace w key → AllNot is_break val → IsLine (entry_line (key, val))
  entry_line-IsLine key val h whole =
      IsLine-append (32 ∷ 32 ∷ []) (key ++ 58 ∷ 32 ∷ 34 ∷ (val ++ 34 ∷ 10 ∷ [])) (refl, (refl, tt))
        (IsLine-append key (58 ∷ 32 ∷ 34 ∷ (val ++ 34 ∷ 10 ∷ [])) (IsName-unbroken isspace w key h)
          (IsLine-append (58 ∷ 32 ∷ 34 ∷ []) (val ++ 34 ∷ 10 ∷ []) (refl, (refl, (refl, tt)))
            (IsLine-append val (34 ∷ 10 ∷ []) whole (refl, refl))))

  print_entries-AreLines :
      (before entries : Section) → AreEntries before entries → AreLines (print_entries entries)
  print_entries-AreLines before [] h = tt
  print_entries-AreLines before ((key, val) ∷ entries) (k, plain, whole, new, h) = (
    entry_line-IsLine key val k whole,
    print_entries-AreLines (before ++ (key, val) ∷ []) entries h,
  )

  print_config-AreLines :
      (done config : Config) → AreSections done config → AreLines (print_config config)
  print_config-AreLines done [] h = tt
  print_config-AreLines done ((name, entries) ∷ config) (n, new, es, h) = (
    section_line-IsLine name n,
    AreLines-append (print_entries entries) (print_config config)
        (print_entries-AreLines [] entries es)
        (print_config-AreLines (done ++ (name, entries) ∷ []) config h),
  )

-- The text of a configuration.
abbrev pub print_text : Config → Text
print_text config = join (print_config config)

-- A file that names each section of a configuration on a line of its own, followed by a line
-- `  key: "value"` for each entry, is read as this configuration, with its order. The names and keys
-- are not empty, hold no white space, colon, quote or number sign, and are distinct; the values
-- are any texts without quotes and line breaks (a line feed or a return), so they may hold colons,
-- number signs and blanks.
pub load_config-print_text :
    (isspace : ℕ → Bool) (w : IsSpace isspace) (config : Config)
    → AreSections isspace w [] config
    → load_config isspace (some (print_text config)) ≡ config
unfolding load_config
load_config-print_text isspace w config h =
    ap (λ lines. (read_lines isspace (reading [] none) lines).config)
      (file_lines-join (print_config config) (print_config-AreLines isspace w [] config h))
    ∙ read_lines-sections isspace w [] config none h
