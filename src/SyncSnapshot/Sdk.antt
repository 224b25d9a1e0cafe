-- ===== src/SyncSnapshot/Sdk.antt =====
-- `sync_sdk`: the headers of the former layout go.
use maze_client.Prelude.{
  ◌≡◌, refl, ap, ◌∙◌, Bool, true, false, Bool-cases, inl, inr, Option, none, some, List, [], ◌∷◌,
  ◌∈◌, if◌then◌else◌, arith,
}
use maze_client.SyncSnapshot.Tree.{
  FilePath, Entry, file, directory, link, other, Tree, Outcome, put, same_path, and_then, unlink_at,
  same_path_refl,
}
use maze_client.SyncSnapshot.Sync.{
  required, old_headers, all_regular, copy_tree, unlink_all, sync_sdk,
}

put-none : (t : Tree) (p q : FilePath) → t q ≡ none → put t p none q ≡ none
put-none t p q h = elim (Bool-cases (same_path p q)) [ inl e ↦ rw e refl | inr e ↦ rw e h ]

unlink_at-keeps :
    (o : Option Entry) (t : Tree) (p q : FilePath) → t q ≡ none → (unlink_at o p t).1 q ≡ none
unlink_at-keeps none t p q h = h
unlink_at-keeps (some directory) t p q h = h
unlink_at-keeps (some link) t p q h = put-none t p q h
unlink_at-keeps (some other) t p q h = put-none t p q h
unlink_at-keeps (some (file c)) t p q h = put-none t p q h

and_then-keeps :
    (P : Tree → Type 0) (o : Outcome) (f : Tree → Outcome)
    → ((t : Tree) → P t → P (f t).1)
    → P o.1
    → P (and_then o f).1
and_then-keeps P (false, t) f k h = h
and_then-keeps P (true, t) f k h = k t h

-- Two steps succeed only if both do.
and_then-both :
    (o : Outcome) (f : Tree → Outcome)
    → (and_then o f).0 ≡ true
    → (o.0 ≡ true) × ((f o.1).0 ≡ true) × (and_then o f ≡ f o.1)
and_then-both (false, t) f h = ground arith
and_then-both (true, t) f h = (refl, h, refl)

unlink_all-keeps :
    (ps : List FilePath) (t : Tree) (q : FilePath) → t q ≡ none → (unlink_all ps t).1 q ≡ none
unfolding unlink_all
unlink_all-keeps [] t q h = h
unlink_all-keeps (p ∷ ps) t q h =
    and_then-keeps (λ s. s q ≡ none) (unlink_at (t p) p t) (unlink_all ps)
      (λ s. unlink_all-keeps ps s q) (unlink_at-keeps (t p) t p q h)

put_removes : (t : Tree) (p : FilePath) → put t p none p ≡ none
put_removes t p = rw (same_path_refl p) refl

unlink_at-removes :
    (o : Option Entry) (t : Tree) (p : FilePath)
    → t p ≡ o
    → (unlink_at o p t).0 ≡ true
    → (unlink_at o p t).1 p ≡ none
unlink_at-removes none t p e h = e
unlink_at-removes (some directory) t p e h = ground arith
unlink_at-removes (some link) t p e h = put_removes t p
unlink_at-removes (some other) t p e h = put_removes t p
unlink_at-removes (some (file c)) t p e h = put_removes t p

unlink_all-removes :
    (ps : List FilePath) (t : Tree) (q : FilePath)
    → q ∈ ps
    → (unlink_all ps t).0 ≡ true
    → (unlink_all ps t).1 q ≡ none
unfolding unlink_all
unlink_all-removes [] t q listed h = absurd listed
unlink_all-removes (p ∷ ps) t q (inl same) h =
    let (first, rest, both) = and_then-both (unlink_at (t p) p t) (unlink_all ps) h in
    ap (λ o. o.1 q) both
    ∙ unlink_all-keeps ps (unlink_at (t p) p t).1 q
        (ap (unlink_at (t p) p t).1 same ∙ unlink_at-removes (t p) t p refl first)
unlink_all-removes (p ∷ ps) t q (inr later) h =
    let (first, rest, both) = and_then-both (unlink_at (t p) p t) (unlink_all ps) h in
    ap (λ o. o.1 q) both ∙ unlink_all-removes ps (unlink_at (t p) p t).1 q later rest

synced-removed :
    (b : Bool) (walk : List (FilePath × Entry)) (target : Tree) (q : FilePath)
    → q ∈ old_headers
    → let o =
        if b then and_then (copy_tree walk target) (unlink_all old_headers) else (false, target) in
      o.0 ≡ true → o.1 q ≡ none
synced-removed true walk target q listed h =
    let (copied, removed, both) =
      and_then-both (copy_tree walk target) (unlink_all old_headers) h in
    ap (λ o. o.1 q) both ∙ unlink_all-removes old_headers (copy_tree walk target).1 q listed removed
synced-removed false walk target q listed h = ground arith

-- If a copy of the SDK succeeds, none of the five old headers is left in the target, be it that the
-- target had it or that the SDK still has it.
pub sync_sdk-old_headers :
    (sdk : Tree) (walk : List (FilePath × Entry)) (target : Tree) (q : FilePath)
    → q ∈ old_headers
    → (sync_sdk sdk walk target).0 ≡ true
    → (sync_sdk sdk walk target).1 q ≡ none
unfolding sync_sdk
sync_sdk-old_headers sdk walk target q listed =
    synced-removed (all_regular sdk required) walk target q listed
