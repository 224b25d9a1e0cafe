-- ===== src/SyncSnapshot/Elsewhere.antt =====
-- `sync_snapshot` writes only the files of the list and their folders, whatever happens.
use Prim.Native.String.{String}
use text.Mathlib.Text.{◌==◌ as str_eq}
use mathlib.Core.List.{append_assoc}
use maze_client.Prelude.{
  ◌≡◌, ◌≢◌, refl, ap, ◌∙◌, Bool, true, false, ◌&&◌, Bool-cases, inl, inr, Option, none, some, List,
  [], ◌∷◌, ◌++◌, if◌then◌else◌, arith,
}
use maze_client.SyncSnapshot.Tree.{
  FilePath, Entry, file, directory, link, other, Tree, Outcome, put, same_path, and_then, regular,
  make_at, make_parents, write_at,
}
use maze_client.SyncSnapshot.Sync.{Pair, copy_to, stage_files, move_in, publish}

-- The first path is the second, or a folder on the way to it.
unfoldable pub leads : FilePath → FilePath → Bool
leads [] p = true
leads (a ∷ q) [] = false
leads (a ∷ q) (b ∷ p) = leads q p && str_eq b a

-- None of the files is at the path or below it.
unfoldable pub apart : FilePath → List Pair → Bool
apart q [] = true
apart q ((source, name) ∷ files) = if leads q name then false else apart q files

leads-top :
    (q top : FilePath) (a : String) (rest : FilePath)
    → leads q (top ++ a ∷ rest) ≡ false
    → same_path (top ++ a ∷ []) q ≡ false
unfolding leads same_path
leads-top [] top a rest h = ground arith
leads-top (c ∷ []) [] a rest h = h
leads-top (c ∷ d ∷ q) [] a rest h = refl
leads-top (c ∷ q) (t ∷ top) a rest h = elim (Bool-cases (str_eq t c)) [
  | inl same ↦ ground (arith, leads-top q top a rest)
  | inr differs ↦ ground arith
]

pub leads-same : (q p : FilePath) → leads q p ≡ false → same_path p q ≡ false
unfolding leads same_path
leads-same [] p h = ground arith
leads-same (a ∷ q) [] h = refl
leads-same (a ∷ q) (b ∷ p) h = elim (Bool-cases (str_eq b a)) [
  | inl same ↦ ground (arith, leads-same q p)
  | inr differs ↦ ground arith
]

put-elsewhere :
    (t : Tree) (p q : FilePath) (e : Option Entry) → same_path p q ≡ false → put t p e q ≡ t q
put-elsewhere t p q e h = rw h refl

make_at-elsewhere :
    (o : Option Entry) (t : Tree) (p q : FilePath)
    → same_path p q ≡ false
    → (make_at o p t).1 q ≡ t q
make_at-elsewhere none t p q h = put-elsewhere t p q (some directory) h
make_at-elsewhere (some directory) t p q h = refl
make_at-elsewhere (some link) t p q h = refl
make_at-elsewhere (some other) t p q h = refl
make_at-elsewhere (some (file c)) t p q h = refl

write_at-elsewhere :
    (o : Option Entry) (t : Tree) (p q : FilePath) (c : String)
    → same_path p q ≡ false
    → (write_at o p c t).1 q ≡ t q
write_at-elsewhere none t p q c h = put-elsewhere t p q (some (file c)) h
write_at-elsewhere (some directory) t p q c h = refl
write_at-elsewhere (some link) t p q c h = put-elsewhere t p q (some (file c)) h
write_at-elsewhere (some other) t p q c h = put-elsewhere t p q (some (file c)) h
write_at-elsewhere (some (file d)) t p q c h = put-elsewhere t p q (some (file c)) h

-- Two steps that leave a path as it was.
and_then-elsewhere :
    (o : Outcome) (f : Tree → Outcome) (t : Tree) (q : FilePath)
    → o.1 q ≡ t q
    → ((s : Tree) → (f s).1 q ≡ s q)
    → (and_then o f).1 q ≡ t q
and_then-elsewhere (false, s) f t q h k = h
and_then-elsewhere (true, s) f t q h k = k s ∙ h

make_parents-elsewhere :
    (q top p : FilePath) (t : Tree) → leads q (top ++ p) ≡ false → (make_parents top p t).1 q ≡ t q
unfolding make_parents
make_parents-elsewhere q top [] t h = refl
make_parents-elsewhere q top (a ∷ []) t h = refl
make_parents-elsewhere q top (a ∷ b ∷ p) t h =
    and_then-elsewhere (make_at (t (top ++ a ∷ [])) (top ++ a ∷ []) t)
      (make_parents (top ++ a ∷ []) (b ∷ p)) t q
      (make_at-elsewhere (t (top ++ a ∷ [])) t (top ++ a ∷ []) q (leads-top q top a (b ∷ p) h))
      λ s.
        make_parents-elsewhere q (top ++ a ∷ []) (b ∷ p) s
          (ap (leads q) (append_assoc top (a ∷ []) (b ∷ p)) ∙ h)

copy_to-elsewhere :
    (name q : FilePath) (o : Option String) (t : Tree)
    → leads q name ≡ false
    → (copy_to name o t).1 q ≡ t q
unfolding copy_to
copy_to-elsewhere name q none t h = refl
copy_to-elsewhere name q (some c) t h =
    and_then-elsewhere (make_parents [] name t) (λ s. write_at (s name) name c s) t q
      (make_parents-elsewhere q [] name t h)
      λ s. write_at-elsewhere (s name) s name q c (leads-same q name h)

pub stage_files-elsewhere :
    (artifact : Tree) (q : FilePath) (files : List Pair) (t : Tree)
    → apart q files ≡ true
    → (stage_files artifact files t).1 q ≡ t q
unfolding stage_files apart
stage_files-elsewhere artifact q [] t h = refl
stage_files-elsewhere artifact q ((source, name) ∷ files) t h = elim (Bool-cases (leads q name)) [
  | inl below ↦ ground arith
  | inr beside ↦
      and_then-elsewhere (copy_to name (regular (artifact source)) t) (stage_files artifact files) t
        q (copy_to-elsewhere name q (regular (artifact source)) t beside)
        λ s. stage_files-elsewhere artifact q files s (rw beside at h)
]

move_in-elsewhere :
    (name q : FilePath) (e : Option Entry) (t : Tree)
    → same_path name q ≡ false
    → (move_in name e t).1 q ≡ t q
move_in-elsewhere name q (some (file c)) t h = write_at-elsewhere (t name) t name q c h
move_in-elsewhere name q (some directory) t h = refl
move_in-elsewhere name q (some link) t h = refl
move_in-elsewhere name q (some other) t h = refl
move_in-elsewhere name q none t h = refl

pub publish-elsewhere :
    (q : FilePath) (files : List Pair) (stage target : Tree)
    → apart q files ≡ true
    → (publish files stage target).1 q ≡ target q
unfolding publish apart
publish-elsewhere q [] stage target h = refl
publish-elsewhere q ((source, name) ∷ files) stage target h = elim (Bool-cases (leads q name)) [
  | inl below ↦ ground arith
  | inr beside ↦
      and_then-elsewhere (and_then (make_parents [] name target) (move_in name (stage name)))
        (publish files (put stage name none)) target q
        (and_then-elsewhere (make_parents [] name target) (move_in name (stage name)) target q
          (make_parents-elsewhere q [] name target beside)
          λ s. move_in-elsewhere name q (stage name) s (leads-same q name beside))
        λ s. publish-elsewhere q files (put stage name none) s (rw beside at h)
]

-- No folder of the listed files is a link in the target.
abbrev pub HasOwnFolders : Tree → Type 0
HasOwnFolders target =
    (target ("common" ∷ []) ≢ some link)
    × (target ("communication" ∷ []) ≢ some link)
    × (target ("maze" ∷ []) ≢ some link)
