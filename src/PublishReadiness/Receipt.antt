-- ===== src/PublishReadiness/Receipt.antt =====
-- `main`: a receipt is replaced as a whole, or not at all.
use maze_client.Prelude.{
  ◌≡◌, refl, ℕ, Bool, true, false, ◌⊎◌, inl, inr, none, some, Option-cases, List, [], map,
}
use maze_client.Prelude.Text.{Text}
use maze_client.PublishReadiness.Facts.{
  Fact, Component, Folder, read_facts, document_of, write_receipt, publish_facts, publish,
}
use maze_client.PublishReadiness.Exact.{print_fact, AreFacts, read_facts_iff}

-- What a call may leave: the receipt that was there, or the document with the facts of the call.
abbrev pub IsWhole : Component → ℕ → List Text → Folder → Bool × Folder → Type 0
IsWhole component now values folder (ok, after) =
    ((ok ≡ false) × (after.receipt ≡ folder.receipt))
    ⊎ ((facts : List Fact) × (ok ≡ true)
        × (values ≡ map print_fact facts)
        × AreFacts [] facts
        × (after.receipt ≡ some (document_of component now facts))
        × (after.temporary ≡ none))

write_receipt-IsWhole :
    (written : Bool) (component : Component) (now : ℕ) (values : List Text) (facts : List Fact)
    (folder : Folder)
    → read_facts [] values ≡ some facts
    → IsWhole component now values folder
        (write_receipt written (document_of component now facts) folder)
unfolding write_receipt
write_receipt-IsWhole true component now values facts folder read =
    let (printed, are) = (read_facts_iff values facts).0 read in
    inr (facts, refl, printed, are, refl, refl)
write_receipt-IsWhole false component now values facts folder read = inl (refl, refl)

-- Whatever the arguments, and whether or not the file can be written, the call either fails and the
-- receipt is the one that was there, or it succeeds, every argument is a fact key=value with a key
-- of its own, and the receipt is the complete document with these facts.
pub publish-IsWhole :
    (written : Bool) (component : Component) (now : ℕ) (values : List Text) (folder : Folder)
    → IsWhole component now values folder (publish written component now values folder)
unfolding publish publish_facts
publish-IsWhole written component now values folder = elim (Option-cases (read_facts [] values)) [
  | inl refused ↦ rw refused (inl (refl, refl))
  | inr (facts, read) ↦
      rw read (write_receipt-IsWhole written component now values facts folder read)
]
