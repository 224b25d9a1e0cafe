-- ===== src/SyncSnapshot/Install.antt =====
-- One file put in place, its folder first: `mkdir` and then the copy or the move.
use Prim.Native.String.{String}
use maze_client.Prelude.{◌≡◌, refl, Bool, true, false, Option, none, some, [], ◌∷◌, if◌then◌else◌}
use maze_client.SyncSnapshot.Tree.{
  FilePath, Entry, file, directory, link, other, Tree, Outcome, put, same_path, and_then,
  make_parents, write_at, same_path_refl,
}

unfoldable pub install : FilePath → String → Tree → Outcome
unfolding make_parents
install name c t = and_then (make_parents [] name t) λ s. write_at (s name) name c s

-- A place for a folder, and one for a file.
abbrev pub CanHold : Option Entry → Type 0
CanHold none = Unit {0}
CanHold (some directory) = Unit {0}
CanHold (some link) = Unit {0}
CanHold (some other) = ⊥
CanHold (some (file c)) = ⊥

abbrev pub CanReplace : Option Entry → Type 0
CanReplace none = Unit {0}
CanReplace (some (file c)) = Unit {0}
CanReplace (some link) = Unit {0}
CanReplace (some other) = Unit {0}
CanReplace (some directory) = ⊥

-- The file `name` of the folder `folder` can be put in place.
abbrev pub IsFree : Tree → String → String → Type 0
IsFree t folder name = CanHold (t (folder ∷ [])) × CanReplace (t (folder ∷ name ∷ []))

abbrev with_folder : Option Entry → String → Tree → Tree
with_folder none folder t = put t (folder ∷ []) (some directory)
with_folder (some e) folder t = t

-- The tree after it.
abbrev pub installed : Tree → String → String → String → Tree
installed t folder name c =
    put (with_folder (t (folder ∷ [])) folder t) (folder ∷ name ∷ []) (some (file c))

install_at :
    (t : Tree) (folder name c : String) (o e : Option Entry)
    → t (folder ∷ []) ≡ o
    → t (folder ∷ name ∷ []) ≡ e
    → CanHold o
    → CanReplace e
    → install (folder ∷ name ∷ []) c t ≡ (true, installed t folder name c)
unfolding install make_parents same_path
install_at t folder name c none none p q h k = rw (p, q) refl
install_at t folder name c none (some (file d)) p q h k = rw (p, q) refl
install_at t folder name c none (some link) p q h k = rw (p, q) refl
install_at t folder name c none (some other) p q h k = rw (p, q) refl
install_at t folder name c none (some directory) p q h k = absurd k
install_at t folder name c (some directory) none p q h k = rw (p, q) refl
install_at t folder name c (some directory) (some (file d)) p q h k = rw (p, q) refl
install_at t folder name c (some directory) (some link) p q h k = rw (p, q) refl
install_at t folder name c (some directory) (some other) p q h k = rw (p, q) refl
install_at t folder name c (some directory) (some directory) p q h k = absurd k
install_at t folder name c (some link) none p q h k = rw (p, q) refl
install_at t folder name c (some link) (some (file d)) p q h k = rw (p, q) refl
install_at t folder name c (some link) (some link) p q h k = rw (p, q) refl
install_at t folder name c (some link) (some other) p q h k = rw (p, q) refl
install_at t folder name c (some link) (some directory) p q h k = absurd k
install_at t folder name c (some other) e p q h k = absurd h
install_at t folder name c (some (file d)) e p q h k = absurd h

pub install-IsFree :
    (t : Tree) (folder name c : String)
    → IsFree t folder name
    → install (folder ∷ name ∷ []) c t ≡ (true, installed t folder name c)
install-IsFree t folder name c (h, k) =
    install_at t folder name c (t (folder ∷ [])) (t (folder ∷ name ∷ [])) refl refl h k

put_if-CanReplace :
    (b : Bool) (c : String) (o : Option Entry)
    → CanReplace o
    → CanReplace (if b then some (file c) else o)
put_if-CanReplace true c o h = tt
put_if-CanReplace false c o h = h

put_if-CanHold :
    (b : Bool) (o : Option Entry) → CanHold o → CanHold (if b then some directory else o)
put_if-CanHold true o h = tt
put_if-CanHold false o h = h

with_folder-CanReplace :
    (o : Option Entry) (folder folder' name' : String) (t : Tree)
    → CanReplace (t (folder' ∷ name' ∷ []))
    → CanReplace (with_folder o folder t (folder' ∷ name' ∷ []))
unfolding same_path
with_folder-CanReplace none folder folder' name' t h = h
with_folder-CanReplace (some e) folder folder' name' t h = h

with_folder-CanHold :
    (o : Option Entry) (folder folder' : String) (t : Tree)
    → CanHold (t (folder' ∷ []))
    → CanHold (with_folder o folder t (folder' ∷ []))
unfolding same_path
with_folder-CanHold none folder folder' t h =
    put_if-CanHold (same_path (folder ∷ []) (folder' ∷ [])) (t (folder' ∷ [])) h
with_folder-CanHold (some e) folder folder' t h = h

-- What was free stays so.
pub installed-IsFree :
    (t : Tree) (folder name c folder' name' : String)
    → IsFree t folder' name'
    → IsFree (installed t folder name c) folder' name'
unfolding same_path
installed-IsFree t folder name c folder' name' (h, k) = (
  with_folder-CanHold (t (folder ∷ [])) folder folder' t h,
  put_if-CanReplace (same_path (folder ∷ name ∷ []) (folder' ∷ name' ∷ [])) c
      (with_folder (t (folder ∷ [])) folder t (folder' ∷ name' ∷ []))
      (with_folder-CanReplace (t (folder ∷ [])) folder folder' name' t k),
)

pub installed_here :
    (t : Tree) (folder name c : String)
    → installed t folder name c (folder ∷ name ∷ []) ≡ some (file c)
installed_here t folder name c = rw (same_path_refl (folder ∷ name ∷ [])) refl
