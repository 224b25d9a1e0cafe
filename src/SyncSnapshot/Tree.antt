-- ===== src/SyncSnapshot/Tree.antt =====
-- A folder as a function from paths to what stands there, and the file operations of the script.
use Prim.Native.String.{String}
use text.Mathlib.Text.{◌==◌ as str_eq}
use text.Mathlib.TextEquality.{eq_iff}
use text.Mathlib.TextPositions.{eq_refl}
use maze_client.Prelude.{
  arith, ◌≡◌, refl, ap, ◌∙◌, Bool, true, false, ◌&&◌, if◌then◌else◌, Option, none, some, List, [],
  ◌∷◌, ◌++◌,
}

-- The parts of a path below the folder.
abbrev pub FilePath : Type 0
FilePath = List String

-- `link` is a symbolic link to a folder; `other` is a link to anything else, or a special file. Where a
-- link leads is no part of the model: a path below one stands for the file that it leads to, which may
-- have another path in the same folder.
pub data Entry : Type 0 where
  file : String → Entry
  directory link other : Entry

abbrev pub Tree : Type 0
Tree = FilePath → Option Entry

unfoldable pub same_path : FilePath → FilePath → Bool
same_path [] [] = true
same_path [] (b ∷ q) = false
same_path (a ∷ p) [] = false
same_path (a ∷ p) (b ∷ q) = same_path p q && str_eq a b

abbrev pub put : Tree → FilePath → Option Entry → Tree
put t p e q = if same_path p q then e else t q

-- What an operation leaves: whether it ended without an exception, and the folder.
abbrev pub Outcome : Type 0
Outcome = Bool × Tree

abbrev pub and_then : Outcome → (Tree → Outcome) → Outcome
and_then (false, t) f = (false, t)
and_then (true, t) f = f t

-- `path.is_file() and not path.is_symlink()`, with the file's contents.
abbrev pub regular : Option Entry → Option String
regular none = none
regular (some (file c)) = some c
regular (some directory) = none
regular (some link) = none
regular (some other) = none

-- One folder of `mkdir(parents=True, exist_ok=True)`.
abbrev pub make_at : Option Entry → FilePath → Tree → Outcome
make_at none p t = (true, put t p (some directory))
make_at (some directory) p t = (true, t)
make_at (some link) p t = (true, t)
make_at (some other) p t = (false, t)
make_at (some (file c)) p t = (false, t)

-- The folders on the way to a path, from the top; its last part is left out.
unfoldable pub make_parents : FilePath → FilePath → Tree → Outcome
make_parents top [] t = (true, t)
make_parents top (a ∷ []) t = (true, t)
make_parents top (a ∷ b ∷ p) t =
    and_then (make_at (t (top ++ a ∷ [])) (top ++ a ∷ []) t) (make_parents (top ++ a ∷ []) (b ∷ p))

-- A file that is put in place of what stands there, which must not be a folder.
abbrev pub write_at : Option Entry → FilePath → String → Tree → Outcome
write_at none p c t = (true, put t p (some (file c)))
write_at (some (file old)) p c t = (true, put t p (some (file c)))
write_at (some link) p c t = (true, put t p (some (file c)))
write_at (some other) p c t = (true, put t p (some (file c)))
write_at (some directory) p c t = (false, t)

-- `unlink(missing_ok=True)`
abbrev pub unlink_at : Option Entry → FilePath → Tree → Outcome
unlink_at none p t = (true, t)
unlink_at (some (file c)) p t = (true, put t p none)
unlink_at (some link) p t = (true, put t p none)
unlink_at (some other) p t = (true, put t p none)
unlink_at (some directory) p t = (false, t)

pub same_path_refl : (p : FilePath) → same_path p p ≡ true
unfolding same_path
same_path_refl [] = refl
same_path_refl (a ∷ p) = rw (same_path_refl p, eq_refl a) refl

pub and-both : {a b : Bool} → (a && b) ≡ true → (a ≡ true) × (b ≡ true)
and-both h = ground arith

pub same_path_sound : (p q : FilePath) → same_path p q ≡ true → p ≡ q
unfolding same_path
same_path_sound [] [] h = refl
same_path_sound [] (b ∷ q) h = ground arith
same_path_sound (a ∷ p) [] h = ground arith
same_path_sound (a ∷ p) (b ∷ q) h =
    let (tails, heads) = and-both {a = same_path p q} {b = str_eq a b} h in
    ap (λ c. c ∷ p) ((eq_iff a b).0 heads) ∙ ap (λ r. b ∷ r) (same_path_sound p q tails)
