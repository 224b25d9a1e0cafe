-- ===== src/PublishReadiness/Facts.antt =====
-- `main`: the facts of the command line, and the receipt. Texts are lists of characters.
use maze_client.Prelude.{
  ◌>>=◌, ℕ, ◌==◌, leb, Bool, true, false, ◌&&◌, ◌||◌, not, if◌then◌else◌, Option, none, some, List,
  [], ◌∷◌, ◌++◌,
}
use maze_client.Prelude.Text.{Text, same, is_empty}

-- A key and the value that was selected for it.
abbrev pub Fact : Type 0
Fact = Text × Text

-- `value.partition("=")`; `none` if there is no separator.
unfoldable pub partition : Text → Option Fact
partition [] = none
partition (c ∷ text) =
    let rest = partition text in
    if c == 61
    then some ([], text)
    else elim rest [ none ↦ none | some (key, selected) ↦ some (c ∷ key, selected) ]

-- A letter in lower case, a digit, or the underscore.
abbrev pub is_key_character : ℕ → Bool
is_key_character c = (leb 97 c && leb c 122) || (leb 48 c && leb c 57) || c == 95

unfoldable pub all_key_characters : Text → Bool
all_key_characters [] = true
all_key_characters (c ∷ key) = is_key_character c && all_key_characters key

-- `key in facts`
unfoldable pub has_key : Text → List Fact → Bool
has_key key [] = false
has_key key ((known, selected) ∷ facts) = same key known || has_key key facts

-- The guard on a fact, and the fact behind those that came before.
unfoldable pub add_fact : List Fact → Fact → Option (List Fact)
unfolding all_key_characters has_key
add_fact facts (key, selected) =
    if is_empty key || has_key key facts || not (all_key_characters key)
    then none
    else some (facts ++ (key, selected) ∷ [])

-- The loop over the arguments; `none` is its SystemExit.
unfoldable pub read_facts : List Fact → List Text → Option (List Fact)
unfolding partition add_fact
read_facts facts [] = some facts
read_facts facts (value ∷ values) =
    partition value >>= add_fact facts >>= λ more. read_facts more values

pub data Component : Type 0 where
  learner aiserver client : Component

pub record Document : Type 0 where
  pub component : Component
  pub ready : Bool
  pub facts : List Fact
  pub published_at_unix_ms : ℕ

-- The receipt, and the file that it is written to first.
pub record Folder : Type 0 where
  pub receipt : Option Document
  pub temporary : Option Document

-- The document as `main` makes it, with the time of the call.
unfoldable pub document_of : Component → ℕ → List Fact → Document
document_of component now facts = record {
  component = component;
  ready = true;
  facts = facts;
  published_at_unix_ms = now;
}

-- `written` tells whether the file could be written and flushed; if not, what there is of it stays.
unfoldable pub write_receipt : Bool → Document → Folder → Bool × Folder
write_receipt true d folder = (true, record { receipt = some d; temporary = none })
write_receipt false d folder = (false, record folder { temporary = some d })

unfoldable pub publish_facts : Bool → Component → ℕ → Option (List Fact) → Folder → Bool × Folder
unfolding document_of write_receipt
publish_facts written component now none folder = (false, folder)
publish_facts written component now (some facts) folder =
    write_receipt written (document_of component now facts) folder

unfoldable pub publish : Bool → Component → ℕ → List Text → Folder → Bool × Folder
unfolding read_facts publish_facts
publish written component now values folder =
    publish_facts written component now (read_facts [] values) folder
