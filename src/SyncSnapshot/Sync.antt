-- ===== src/SyncSnapshot/Sync.antt =====
-- `sync_snapshot`, `sync_sdk` and `main`. A temporary folder takes all the copies first.
use Prim.Native.String.{String}
use maze_client.Prelude.{
  Bool, true, false, ◌&&◌, Option, none, some, List, [], ◌∷◌, ◌++◌, if◌then◌else◌,
}
use maze_client.SyncSnapshot.Tree.{
  FilePath, Entry, file, directory, link, other, Tree, Outcome, put, and_then, regular, make_at,
  make_parents, write_at, unlink_at,
}

-- A file of the artifact, and its place in the target.
abbrev pub Pair : Type 0
Pair = FilePath × FilePath

abbrev pub snapshot_files : List Pair
snapshot_files =
    ("proto" ∷ "common" ∷ "identity.proto" ∷ [], "common" ∷ "identity.proto" ∷ [])
    ∷ ("cpp" ∷ "proto" ∷ "common" ∷ "identity.pb.cc" ∷ [], "common" ∷ "identity.pb.cc" ∷ [])
    ∷ ("cpp" ∷ "proto" ∷ "common" ∷ "identity.pb.h" ∷ [], "common" ∷ "identity.pb.h" ∷ [])
    ∷ ("proto" ∷ "communication" ∷ "session.proto" ∷ [], "communication" ∷ "session.proto" ∷ [])
    ∷ (
      "cpp" ∷ "proto" ∷ "communication" ∷ "session.pb.cc" ∷ [],
      "communication" ∷ "session.pb.cc" ∷ [],
    )
    ∷ (
      "cpp" ∷ "proto" ∷ "communication" ∷ "session.pb.h" ∷ [],
      "communication" ∷ "session.pb.h" ∷ [],
    )
    ∷ ("proto" ∷ "maze" ∷ "maze.proto" ∷ [], "maze" ∷ "maze.proto" ∷ [])
    ∷ ("cpp" ∷ "proto" ∷ "maze" ∷ "maze.pb.cc" ∷ [], "maze" ∷ "maze.pb.cc" ∷ [])
    ∷ ("cpp" ∷ "proto" ∷ "maze" ∷ "maze.pb.h" ∷ [], "maze" ∷ "maze.pb.h" ∷ [])
    ∷ ("cpp" ∷ "proto" ∷ "maze" ∷ "maze.grpc.pb.cc" ∷ [], "maze" ∷ "maze.grpc.pb.cc" ∷ [])
    ∷ ("cpp" ∷ "proto" ∷ "maze" ∷ "maze.grpc.pb.h" ∷ [], "maze" ∷ "maze.grpc.pb.h" ∷ [])
    ∷ ("cpp" ∷ "proto" ∷ "maze" ∷ "maze.sdk.pb.h" ∷ [], "maze" ∷ "maze.sdk.pb.h" ∷ [])
    ∷ []

-- A copy into the stage, of a file that was found regular.
unfoldable pub copy_to : FilePath → Option String → Tree → Outcome
unfolding make_parents
copy_to name none stage = (false, stage)
copy_to name (some c) stage = and_then (make_parents [] name stage) λ s. write_at (s name) name c s

unfoldable pub stage_files : Tree → List Pair → Tree → Outcome
unfolding copy_to
stage_files artifact [] stage = (true, stage)
stage_files artifact ((source, name) ∷ files) stage =
    and_then (copy_to name (regular (artifact source)) stage) (stage_files artifact files)

-- `os.replace`, of a staged file.
abbrev pub move_in : FilePath → Option Entry → Tree → Outcome
move_in name (some (file c)) target = write_at (target name) name c target
move_in name (some directory) target = (false, target)
move_in name (some link) target = (false, target)
move_in name (some other) target = (false, target)
move_in name none target = (false, target)

unfoldable pub publish : List Pair → Tree → Tree → Outcome
unfolding make_parents
publish [] stage target = (true, target)
publish ((source, name) ∷ files) stage target =
    and_then (and_then (make_parents [] name target) (move_in name (stage name)))
      (publish files (put stage name none))

-- Nothing is moved unless every file was staged.
abbrev pub publish_staged : List Pair → Outcome → Tree → Outcome
publish_staged files (false, stage) target = (false, target)
publish_staged files (true, stage) target = publish files stage target

unfoldable pub sync_snapshot : Tree → Tree → Outcome
unfolding stage_files publish
sync_snapshot artifact target =
    publish_staged snapshot_files (stage_files artifact snapshot_files (λ p. none)) target

abbrev pub required : List FilePath
required =
    ("CMakeLists.txt" ∷ [])
    ∷ ("include" ∷ "rl_sdk" ∷ "task_client.h" ∷ [])
    ∷ ("tools" ∷ "generate-task" ∷ [])
    ∷ ("tools" ∷ "protoc-gen-rl-sdk" ∷ [])
    ∷ ("proto" ∷ "common" ∷ "identity.proto" ∷ [])
    ∷ ("proto" ∷ "communication" ∷ "session.proto" ∷ [])
    ∷ []

abbrev pub old_headers : List FilePath
old_headers =
    ("session.h" ∷ [])
    ∷ ("transport.h" ∷ [])
    ∷ ("server_command.h" ∷ [])
    ∷ ("replay_window.h" ∷ [])
    ∷ ("metric_catalog.h" ∷ [])
    ∷ []

unfoldable pub all_regular : Tree → List FilePath → Bool
all_regular t [] = true
all_regular t (p ∷ ps) = elim (regular (t p)) [ none ↦ false | some c ↦ all_regular t ps ]

-- `copy2` onto what stands at `name`: into a folder, under the last part of the name, and through a
-- link to where it leads, outside the target.
abbrev pub copy_onto : Option Entry → FilePath → FilePath → String → Tree → Outcome
copy_onto none name inside c t = (true, put t name (some (file c)))
copy_onto (some (file old)) name inside c t = (true, put t name (some (file c)))
copy_onto (some other) name inside c t = (true, t)
copy_onto (some directory) name inside c t = write_at (t inside) inside c t
copy_onto (some link) name inside c t = write_at (t inside) inside c t

abbrev pub last_part : FilePath → FilePath
last_part [] = []
last_part (a ∷ []) = a ∷ []
last_part (a ∷ b ∷ p) = last_part (b ∷ p)

-- What `copytree` does with one thing of the source. A link that leads to no regular file is an error.
abbrev pub copy_entry : FilePath → Entry → Tree → Outcome
copy_entry name directory t = make_at (t name) name t
copy_entry name link t = make_at (t name) name t
copy_entry name (file c) t = copy_onto (t name) name (name ++ last_part name) c t
copy_entry name other t = (false, t)

-- `copytree` goes on after an error, and raises it at the end.
unfoldable pub copy_tree : List (FilePath × Entry) → Tree → Outcome
copy_tree [] t = (true, t)
copy_tree ((name, e) ∷ entries) t =
    let (fine, s) = copy_entry name e t in let (rest, r) = copy_tree entries s in (fine && rest, r)

unfoldable pub unlink_all : List FilePath → Tree → Outcome
unlink_all [] t = (true, t)
unlink_all (p ∷ ps) t = and_then (unlink_at (t p) p t) (unlink_all ps)

-- `sdk` is the folder of the artifact, and `walk` what it holds, a folder before its contents.
unfoldable pub sync_sdk : Tree → List (FilePath × Entry) → Tree → Outcome
unfolding all_regular copy_tree unlink_all
sync_sdk sdk walk target =
    if all_regular sdk required
    then and_then (copy_tree walk target) (unlink_all old_headers)
    else (false, target)
