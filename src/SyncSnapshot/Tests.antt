-- ===== src/SyncSnapshot/Tests.antt =====
-- A small artifact, and the theorems at inputs that meet their hypotheses.
use maze_client.Prelude.{◌≡◌, refl, false, true, none, some, [], ◌∷◌, inl, inr, if◌then◌else◌}
use maze_client.SyncSnapshot.Tree.{FilePath, file, directory, Tree, same_path, regular}
use maze_client.SyncSnapshot.Sync.{snapshot_files, sync_snapshot, sync_sdk}
use maze_client.SyncSnapshot.Stage.{sync_snapshot-missing}
use maze_client.SyncSnapshot.Publish.{AreRegular, AreFree, AreCopied, sync_snapshot-AreCopied}
use maze_client.SyncSnapshot.Sdk.{sync_sdk-old_headers}

-- Every file of the artifact has the same text.
abbrev complete : Tree
complete p = some (file "syntax")

abbrev readme : FilePath
readme = "README.md" ∷ []

-- A target with a file of its own, and an old copy of one that is listed.
abbrev target : Tree
unfolding same_path
target p =
    if same_path readme p
    then some (file "notes")
    else if same_path ("maze" ∷ []) p
    then some directory
    else if same_path ("maze" ∷ "maze.proto" ∷ []) p
    then some (file "old")
    else none

abbrev incomplete : Tree
unfolding same_path
incomplete p =
    if same_path ("proto" ∷ "maze" ∷ "maze.proto" ∷ []) p then none else some (file "syntax")

copies : (sync_snapshot complete target).1 ("maze" ∷ "maze.proto" ∷ []) ≡ some (file "syntax")
unfolding sync_snapshot same_path
copies = refl

keeps : (sync_snapshot complete target).1 readme ≡ some (file "notes")
unfolding sync_snapshot same_path
keeps = refl

complete-AreRegular : AreRegular complete snapshot_files
complete-AreRegular = (
  ("syntax", refl),
  (
    ("syntax", refl),
    (
      ("syntax", refl),
      (
        ("syntax", refl),
        (
          ("syntax", refl),
          (
            ("syntax", refl),
            (
              ("syntax", refl),
              (
                ("syntax", refl),
                (("syntax", refl), (("syntax", refl), (("syntax", refl), (("syntax", refl), tt)))),
              ),
            ),
          ),
        ),
      ),
    ),
  ),
)

target-AreFree : AreFree target snapshot_files
unfolding same_path
target-AreFree = (
  (tt, tt),
  (
    (tt, tt),
    (
      (tt, tt),
      (
        (tt, tt),
        (
          (tt, tt),
          ((tt, tt), ((tt, tt), ((tt, tt), ((tt, tt), ((tt, tt), ((tt, tt), ((tt, tt), tt))))))),
        ),
      ),
    ),
  ),
)

is_missing : regular (incomplete ("proto" ∷ "maze" ∷ "maze.proto" ∷ [])) ≡ none
unfolding same_path
is_missing = refl

removes : (sync_sdk complete ((("session.h" ∷ []), file "old") ∷ []) (λ p. none)).0 ≡ true
unfolding sync_sdk same_path
removes = refl

sync_snapshot-AreCopied_example :
    ((sync_snapshot complete target).0 ≡ true)
    × AreCopied complete (sync_snapshot complete target).1 snapshot_files
sync_snapshot-AreCopied_example =
    sync_snapshot-AreCopied complete target complete-AreRegular target-AreFree

sync_snapshot-missing_example : sync_snapshot incomplete target ≡ (false, target)
sync_snapshot-missing_example =
    sync_snapshot-missing incomplete target ("proto" ∷ "maze" ∷ "maze.proto" ∷ [])
      ("maze" ∷ "maze.proto" ∷ []) (inr (inr (inr (inr (inr (inr (inl refl))))))) is_missing

-- Without a required file nothing is copied.
lacking : sync_sdk (λ p. none) ((readme, file "old") ∷ []) target ≡ (false, target)
unfolding sync_sdk
lacking = refl

sync_sdk-old_headers_example :
    (sync_sdk complete ((("session.h" ∷ []), file "old") ∷ []) (λ p. none)).1 ("session.h" ∷ [])
    ≡ none
sync_sdk-old_headers_example =
    sync_sdk-old_headers complete ((("session.h" ∷ []), file "old") ∷ []) (λ p. none)
      ("session.h" ∷ []) (inl refl) removes
