-- ===== src/SyncSnapshot/Publish.antt =====
-- `sync_snapshot` when nothing is in its way: every listed file is the artifact's.
use Prim.Native.String.{String}
use mathlib.Core.Path.{subst}
use maze_client.Prelude.{
  ◌≡◌, refl, sym, ap, ◌∙◌, Bool, true, false, ◌&&◌, Bool-cases, inl, inr, none, some, List, [], ◌∷◌,
  arith,
}
use maze_client.SyncSnapshot.Tree.{
  FilePath, file, Tree, Outcome, put, same_path, and_then, regular, make_parents, write_at,
  and-both, same_path_refl, same_path_sound,
}
use maze_client.SyncSnapshot.Sync.{
  Pair, snapshot_files, copy_to, stage_files, publish, publish_staged, sync_snapshot,
}
use maze_client.SyncSnapshot.Install.{
  install, IsFree, installed, install-IsFree, installed-IsFree, installed_here,
}
use maze_client.SyncSnapshot.Elsewhere.{leads, leads-same, apart, stage_files-elsewhere}

-- Every listed file is a regular file of the artifact.
abbrev pub AreRegular : Tree → List Pair → Type 0
AreRegular artifact [] = Unit
AreRegular artifact ((source, name) ∷ files) =
    ((c : String) × (regular (artifact source) ≡ some c)) × AreRegular artifact files

-- No folder stands in the way of a file, and no file in the way of its folder.
abbrev pub AreFree : Tree → List Pair → Type 0
AreFree t [] = Unit
AreFree t ((source, []) ∷ files) = ⊥
AreFree t ((source, a ∷ []) ∷ files) = ⊥
AreFree t ((source, folder ∷ name ∷ []) ∷ files) = IsFree t folder name × AreFree t files
AreFree t ((source, a ∷ b ∷ c ∷ p) ∷ files) = ⊥

-- Every listed file has the contents that it has in the artifact.
abbrev pub AreCopied : Tree → Tree → List Pair → Type 0
AreCopied artifact t [] = Unit
AreCopied artifact t ((source, name) ∷ files) =
    ((c : String) × (regular (artifact source) ≡ some c) × (t name ≡ some (file c)))
    × AreCopied artifact t files

-- No two names are the same, and none leads to another.
distinct : List Pair → Bool
unfolding apart
distinct [] = true
distinct ((source, name) ∷ files) = apart name files && distinct files

installed-AreFree :
    (t : Tree) (folder name c : String) (files : List Pair)
    → AreFree t files
    → AreFree (installed t folder name c) files
installed-AreFree t folder name c [] h = tt
installed-AreFree t folder name c ((source, []) ∷ files) h = absurd h
installed-AreFree t folder name c ((source, a ∷ []) ∷ files) h = absurd h
installed-AreFree t folder name c ((source, folder' ∷ name' ∷ []) ∷ files) (h, more) =
    (installed-IsFree t folder name c folder' name' h, installed-AreFree t folder name c files more)
installed-AreFree t folder name c ((source, a ∷ b ∷ d ∷ p) ∷ files) h = absurd h

copy_to-install :
    (name : FilePath) (c : String) (t : Tree) → copy_to name (some c) t ≡ install name c t
unfolding copy_to install
copy_to-install name c t = refl

IsSynced : Tree → List Pair → Outcome → Type 0
IsSynced artifact files o = (o.0 ≡ true) × AreCopied artifact o.1 files

stage_files-cons :
    (artifact t : Tree) (source : FilePath) (folder name c : String) (files : List Pair)
    → regular (artifact source) ≡ some c
    → IsFree t folder name
    → stage_files artifact ((source, folder ∷ name ∷ []) ∷ files) t
      ≡ stage_files artifact files (installed t folder name c)
unfolding stage_files
stage_files-cons artifact t source folder name c files e h =
    ap (λ o. and_then (copy_to (folder ∷ name ∷ []) o t) (stage_files artifact files)) e
    ∙ ap (λ o. and_then o (stage_files artifact files))
        (copy_to-install (folder ∷ name ∷ []) c t ∙ install-IsFree t folder name c h)

stage_files-IsSynced :
    (artifact : Tree) (files : List Pair) (t : Tree)
    → AreRegular artifact files
    → AreFree t files
    → distinct files ≡ true
    → IsSynced artifact files (stage_files artifact files t)
unfolding IsSynced stage_files distinct
stage_files-IsSynced artifact [] t r f d = (refl, tt)
stage_files-IsSynced artifact ((source, []) ∷ files) t r f d = absurd f
stage_files-IsSynced artifact ((source, a ∷ []) ∷ files) t r f d = absurd f
stage_files-IsSynced artifact ((source, a ∷ b ∷ x ∷ p) ∷ files) t r f d = absurd f
stage_files-IsSynced artifact ((source, folder ∷ name ∷ []) ∷ files) t ((c, e), r) (f, free) d =
    let place = folder ∷ name ∷ [] in
    let t' = installed t folder name c in
    let (away, apart_rest) = and-both {a = apart place files} d in
    let (fine, copied) =
      stage_files-IsSynced artifact files t' r (installed-AreFree t folder name c files free)
        apart_rest in
    subst (λ o. IsSynced artifact ((source, place) ∷ files) o)
      (sym (stage_files-cons artifact t source folder name c files e f))
      (
        fine,
        (
          (
            c,
            e,
            stage_files-elsewhere artifact place files t' away ∙ installed_here t folder name c,
          ),
          copied,
        ),
      )

leads-differs : (q name : FilePath) → leads q name ≡ false → same_path q name ≡ false
leads-differs q name h = elim (Bool-cases (same_path q name)) [
  | inl same ↦
      same
      ∙ sym (same_path_refl q)
      ∙ ap (λ p. same_path p q) (same_path_sound q name same)
      ∙ leads-same q name h
  | inr differs ↦ differs
]

-- The same step before two that agree.
and_then-same :
    (o : Outcome) (f g : Tree → Outcome) → ((t : Tree) → f t ≡ g t) → and_then o f ≡ and_then o g
and_then-same (false, t) f g h = refl
and_then-same (true, t) f g h = h t

-- Taking a staged file away leaves those that are apart from it.
put-AreCopied :
    (artifact stage : Tree) (q : FilePath) (files : List Pair)
    → apart q files ≡ true
    → AreCopied artifact stage files
    → AreCopied artifact (put stage q none) files
unfolding apart
put-AreCopied artifact stage q [] away h = tt
put-AreCopied artifact stage q ((source, name) ∷ files) away ((c, e, held), more) =
    elim (Bool-cases (leads q name)) [
      | inl below ↦ ground arith
      | inr beside ↦ (
        (c, e, rw (leads-differs q name beside) held),
        put-AreCopied artifact stage q files (rw beside at away) more,
      )
    ]

-- Moving the staged files in does to the target what the copies did to the stage.
publish-stage_files :
    (artifact : Tree) (files : List Pair) (stage target : Tree)
    → AreCopied artifact stage files
    → distinct files ≡ true
    → publish files stage target ≡ stage_files artifact files target
unfolding publish stage_files distinct copy_to
publish-stage_files artifact [] stage target h d = refl
publish-stage_files artifact ((source, name) ∷ files) stage target ((c, e, held), more) d =
    let (away, apart_rest) = and-both {a = apart name files} d in
    rw (e, held)
      (and_then-same (and_then (make_parents [] name target) (λ s. write_at (s name) name c s))
        (publish files (put stage name none)) (stage_files artifact files)
        λ t.
          publish-stage_files artifact files (put stage name none) t
            (put-AreCopied artifact stage name files away more) apart_rest)

distinct-snapshot_files : distinct snapshot_files ≡ true
unfolding distinct apart leads
distinct-snapshot_files = refl

publish_staged-IsSynced :
    (artifact target : Tree) (o : Outcome)
    → IsSynced artifact snapshot_files o
    → AreRegular artifact snapshot_files
    → AreFree target snapshot_files
    → IsSynced artifact snapshot_files (publish_staged snapshot_files o target)
unfolding IsSynced
publish_staged-IsSynced artifact target (false, stage) (fine, copied) r f = ground arith
publish_staged-IsSynced artifact target (true, stage) (fine, copied) r f =
    subst (IsSynced artifact snapshot_files)
      (sym
        (publish-stage_files artifact snapshot_files stage target copied distinct-snapshot_files))
      (stage_files-IsSynced artifact snapshot_files target r f distinct-snapshot_files)

-- If every listed file is a regular file of the artifact, and in the target no folder stands where a
-- file goes and nothing but a folder where its folder goes, then the copy of the snapshot succeeds,
-- and each of the files has in the target the contents that it has in the artifact.
pub sync_snapshot-AreCopied :
    (artifact target : Tree)
    → AreRegular artifact snapshot_files
    → AreFree target snapshot_files
    → ((sync_snapshot artifact target).0 ≡ true)
      × AreCopied artifact (sync_snapshot artifact target).1 snapshot_files
unfolding sync_snapshot IsSynced
sync_snapshot-AreCopied artifact target r f =
    publish_staged-IsSynced artifact target (stage_files artifact snapshot_files (λ p. none))
      (stage_files-IsSynced artifact snapshot_files (λ p. none) r empty-AreFree
        distinct-snapshot_files)
      r f
  where
    empty-AreFree : AreFree (λ p. none) snapshot_files
    empty-AreFree = (
      (tt, tt),
      (
        (tt, tt),
        (
          (tt, tt),
          (
            (tt, tt),
            (
              (tt, tt),
              (
                (tt, tt),
                ((tt, tt), ((tt, tt), ((tt, tt), ((tt, tt), ((tt, tt), ((tt, tt), tt)))))),
              ),
            ),
          ),
        ),
      ),
    )
