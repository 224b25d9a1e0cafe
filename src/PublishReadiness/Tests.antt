-- ===== src/PublishReadiness/Tests.antt =====
-- Facts of a command line, and the theorems at inputs that meet their hypotheses.
use maze_client.Prelude.{◌≡◌, refl, true, none, some, List, [], ◌∷◌, ◌↔◌, map}
use maze_client.Prelude.Text.{Text, same}
use maze_client.PublishReadiness.Facts.{
  Fact, client, Folder, partition, add_fact, read_facts, publish,
}
use maze_client.PublishReadiness.Exact.{print_fact, AreFacts, read_facts_iff}
use maze_client.PublishReadiness.Receipt.{IsWhole, publish-IsWhole}

-- `port=80` and `url=a=b`
abbrev values : List Text
values =
    (b'p' ∷ b'o' ∷ b'r' ∷ b't' ∷ b'=' ∷ b'8' ∷ b'0' ∷ [])
    ∷ (b'u' ∷ b'r' ∷ b'l' ∷ b'=' ∷ b'a' ∷ b'=' ∷ b'b' ∷ [])
    ∷ []

abbrev facts : List Fact
facts =
    (b'p' ∷ b'o' ∷ b'r' ∷ b't' ∷ [], b'8' ∷ b'0' ∷ [])
    ∷ (b'u' ∷ b'r' ∷ b'l' ∷ [], b'a' ∷ b'=' ∷ b'b' ∷ [])
    ∷ []

abbrev no_receipt : Folder
no_receipt = record { receipt = none; temporary = none }

reads : read_facts [] values ≡ some facts
unfolding read_facts add_fact partition same
reads = refl

-- A key in upper case, a key twice, no key, and no separator.
upper : read_facts [] ((b'P' ∷ b'=' ∷ b'8' ∷ []) ∷ []) ≡ none
unfolding read_facts add_fact partition same
upper = refl

twice : read_facts [] ((b'p' ∷ b'=' ∷ b'8' ∷ []) ∷ (b'p' ∷ b'=' ∷ []) ∷ []) ≡ none
unfolding read_facts add_fact partition same
twice = refl

no_key : read_facts [] ((b'=' ∷ b'8' ∷ []) ∷ []) ≡ none
unfolding read_facts add_fact partition same
no_key = refl

no_separator : read_facts [] ((b'p' ∷ []) ∷ []) ≡ none
unfolding read_facts add_fact partition same
no_separator = refl

read_facts_iff_example :
    (read_facts [] values ≡ some facts) ↔ ((values ≡ map print_fact facts) × AreFacts [] facts)
read_facts_iff_example = read_facts_iff values facts

publish-IsWhole_example :
    IsWhole client 7 values no_receipt (publish true client 7 values no_receipt)
publish-IsWhole_example = publish-IsWhole true client 7 values no_receipt
