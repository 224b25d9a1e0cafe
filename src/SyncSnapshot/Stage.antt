-- ===== src/SyncSnapshot/Stage.antt =====
-- The stage: a missing file leaves the target as it was, and the copies are those of the artifact.
use maze_client.Prelude.{
  ◌≡◌, refl, sym, ap, ◌∙◌, true, false, inl, inr, none, List, [], ◌∷◌, ◌∈◌, arith,
}
use maze_client.SyncSnapshot.Tree.{FilePath, Tree, Outcome, and_then, regular}
use maze_client.SyncSnapshot.Sync.{
  Pair, snapshot_files, copy_to, stage_files, publish_staged, sync_snapshot,
}

-- The first step of two that fails, fails both.
pub and_then-fails :
    (o : Outcome) (f : Tree → Outcome) → ((t : Tree) → (f t).0 ≡ false) → (and_then o f).0 ≡ false
and_then-fails (false, t) f h = refl
and_then-fails (true, t) f h = h t

stage_files-missing :
    (artifact : Tree) (files : List Pair) (source name : FilePath) (stage : Tree)
    → (source, name) ∈ files
    → regular (artifact source) ≡ none
    → (stage_files artifact files stage).0 ≡ false
unfolding stage_files copy_to
stage_files-missing artifact [] source name stage listed h = absurd listed
stage_files-missing artifact ((source', name') ∷ files) source name stage (inl same) h =
    rw (sym (ap (λ p. regular (artifact p.0)) same) ∙ h) refl
stage_files-missing artifact ((source', name') ∷ files) source name stage (inr rest) h =
    and_then-fails (copy_to name' (regular (artifact source')) stage) (stage_files artifact files)
      λ t. stage_files-missing artifact files source name t rest h

publish_staged-failed :
    (files : List Pair) (o : Outcome) (target : Tree)
    → o.0 ≡ false
    → publish_staged files o target ≡ (false, target)
publish_staged-failed files (false, stage) target h = refl
publish_staged-failed files (true, stage) target h = ground arith

-- If a file of the list is missing from the artifact, or is no regular file, the copy of the
-- snapshot fails and the target keeps every file as it was, whichever of the files it is.
pub sync_snapshot-missing :
    (artifact target : Tree) (source name : FilePath)
    → (source, name) ∈ snapshot_files
    → regular (artifact source) ≡ none
    → sync_snapshot artifact target ≡ (false, target)
unfolding sync_snapshot
sync_snapshot-missing artifact target source name listed missing =
    publish_staged-failed snapshot_files (stage_files artifact snapshot_files (λ p. none)) target
      (stage_files-missing artifact snapshot_files source name (λ p. none) listed missing)
