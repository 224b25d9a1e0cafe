-- ===== src/PublishReadiness/Exact.antt =====
-- The facts that are accepted are exactly those of the form key=value, each key once.
use mathlib.Core.Path.{subst}
use mathlib.Core.List.{append_assoc, append-nil}
use maze_client.Prelude.{
  ◌≡◌, refl, sym, ap, ◌∙◌, ◌>>=◌, bind_some, true, false, some, List, [], ◌∷◌, ◌++◌, map, ◌↔◌,
  Option-cases, inl, inr, arith, ==_iff,
}
use maze_client.Prelude.Text.{Text, is_empty}
use maze_client.PublishReadiness.Facts.{
  Fact, partition, all_key_characters, has_key, add_fact, read_facts,
}

-- A fact as it stands on the command line.
abbrev pub print_fact : Fact → Text
print_fact (key, selected) = key ++ 61 ∷ selected

-- A key that can be used after those of the facts before it.
abbrev pub IsNew : List Fact → Text → Type 0
IsNew facts key =
    (is_empty key ≡ false) × (has_key key facts ≡ false) × (all_key_characters key ≡ true)

-- Facts behind others: every key is made of key characters and was not used before.
abbrev pub AreFacts : List Fact → List Fact → Type 0
AreFacts facts [] = Unit
AreFacts facts ((key, selected) ∷ more) =
    IsNew facts key × AreFacts (facts ++ (key, selected) ∷ []) more

partition-print_fact :
    (key selected : Text)
    → all_key_characters key ≡ true
    → partition (print_fact (key, selected)) ≡ some (key, selected)
unfolding partition all_key_characters
partition-print_fact [] selected h = refl
partition-print_fact (c ∷ key) selected h = ground (arith, partition-print_fact key selected)

partition-exact :
    (value key selected : Text)
    → partition value ≡ some (key, selected)
    → value ≡ print_fact (key, selected)
unfolding partition
partition-exact [] key selected h = ground arith
partition-exact (c ∷ value) key selected h = elim (Option-cases (partition value)) [
  | inl none_left ↦ ground (arith, ==_iff c 61)
  | inr (split, e) ↦ ground (arith, partition-exact value split.0 split.1 e, ==_iff c 61)
]

add_fact-IsNew :
    (facts : List Fact) (key selected : Text)
    → IsNew facts key
    → add_fact facts (key, selected) ≡ some (facts ++ (key, selected) ∷ [])
unfolding add_fact
add_fact-IsNew facts key selected (e, k, a) = rw (e, k, a) refl

add_fact-exact :
    (facts more : List Fact) (key selected : Text)
    → add_fact facts (key, selected) ≡ some more
    → IsNew facts key × (more ≡ facts ++ (key, selected) ∷ [])
unfolding add_fact
add_fact-exact facts more key selected h = ground arith

read_facts-AreFacts :
    (facts more : List Fact)
    → AreFacts facts more
    → read_facts facts (map print_fact more) ≡ some (facts ++ more)
unfolding read_facts
read_facts-AreFacts facts [] h = ap some (sym (append-nil facts))
read_facts-AreFacts facts ((key, selected) ∷ more) ((e, k, a), rest) =
    rw (partition-print_fact key selected a, add_fact-IsNew facts key selected (e, k, a))
      (read_facts-AreFacts (facts ++ (key, selected) ∷ []) more rest
        ∙ ap some (append_assoc facts ((key, selected) ∷ []) more))

-- The facts that a list of arguments gives, behind others.
IsRead : List Fact → List Text → List Fact → Type 0
IsRead facts values result =
    (more : List Fact) × (values ≡ map print_fact more)
    × AreFacts facts more
    × (result ≡ facts ++ more)

IsRead-cons :
    (facts : List Fact) (value : Text) (values : List Text) (key selected : Text)
    (result : List Fact)
    → value ≡ print_fact (key, selected)
    → IsNew facts key
    → IsRead (facts ++ (key, selected) ∷ []) values result
    → IsRead facts (value ∷ values) result
unfolding IsRead
IsRead-cons facts value values key selected result printed new (more, all, rest, sum) = (
  (key, selected) ∷ more,
  ap (λ v. v ∷ values) printed ∙ ap (λ vs. print_fact (key, selected) ∷ vs) all,
  (new, rest),
  sum ∙ append_assoc facts ((key, selected) ∷ []) more,
)

read_facts-IsRead :
    (values : List Text) (facts result : List Fact)
    → read_facts facts values ≡ some result
    → IsRead facts values result
unfolding read_facts IsRead
read_facts-IsRead [] facts result h = ([], refl, tt, ground (arith, append-nil facts))
read_facts-IsRead (value ∷ values) facts result h =
    let (more, added, rest) =
      bind_some (partition value >>= add_fact facts) (λ more. read_facts more values) result h in
    let (fact, split, checked) = bind_some (partition value) (add_fact facts) more added in
    let (new, sum) = add_fact-exact facts more fact.0 fact.1 checked in
    IsRead-cons facts value values fact.0 fact.1 result (partition-exact value fact.0 fact.1 split)
      new (subst (λ m. IsRead m values result) sum (read_facts-IsRead values more result rest))

-- The arguments are accepted with these facts exactly if they are the facts written key=value, in
-- this order, every key is a non-empty text of lower-case letters, digits and underscores, and no
-- key was used before.
pub read_facts_iff :
    (values : List Text) (facts : List Fact)
    → (read_facts [] values ≡ some facts) ↔ ((values ≡ map print_fact facts) × AreFacts [] facts)
unfolding IsRead
read_facts_iff values facts = (
  λ h.
      let (more, printed, are, sum) = read_facts-IsRead values [] facts h in
      (printed ∙ ap (map print_fact) (sym sum), subst (AreFacts []) (sym sum) are),
  λ h. ap (read_facts []) h.0 ∙ read_facts-AreFacts [] facts h.1,
)
