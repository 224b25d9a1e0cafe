-- ===== src/MapGenerator/Walls/Laws.antt =====
-- The wall set as a set of unordered pairs.
use maze_client.Prelude.{
  ℕ, ◌+◌, ◌≡◌, ◌↔◌, refl, true, false, ◌&&◌, ◌||◌, not, List, [], ◌∷◌, length, arith, ◌⊎◌, inl, inr,
}
use maze_client.MapGenerator.Grid.{Pos}
use maze_client.MapGenerator.Walls.{
  WallEdgeSet, Edge, same_pos, same_edge, member, discard, add, has_wall,
}

pub same_edge_refl : (e : Edge) → same_edge e e ≡ true
unfolding same_edge
same_edge_refl e = ground arith

pub same_edge_sym : (e f : Edge) → same_edge e f ≡ same_edge f e
unfolding same_edge
same_edge_sym e f = ground arith

same_pos_iff : (a b : Pos) → (same_pos a b ≡ true) ↔ (a ≡ b)
unfolding same_pos
same_pos_iff a b = ground arith

-- A frozenset does not know the order of its two rooms.
pub same_edge-swap : (a b : Pos) (g : Edge) → same_edge (a, b) g ≡ same_edge (b, a) g
unfolding same_edge
same_edge-swap a b (c, d) = ground arith

same_edge-cases :
    (a b c d : Pos) → same_edge (a, b) (c, d) ≡ true → (a ≡ c) × (b ≡ d) ⊎ (a ≡ d) × (b ≡ c)
unfolding same_edge
same_edge-cases a b c d h =
    ground (arith, same_pos_iff a c, same_pos_iff b d, same_pos_iff a d, same_pos_iff b c)

same_edge_trans : (e f g : Edge) → same_edge e f ≡ true → same_edge e g ≡ same_edge f g
same_edge_trans (a, b) (c, d) g h = elim (same_edge-cases a b c d h) [
  | inl (p, q) ↦ rw (p, q) refl
  | inr (p, q) ↦ rw (p, q) (same_edge-swap d c g)
]

pub member-discard :
    (e f : Edge) (es : List Edge) → member f (discard e es) ≡ (member f es && not (same_edge f e))
unfolding member discard
member-discard e f [] = refl
member-discard e f (g ∷ es) = ground (
  arith,
  member-discard e f es,
  same_edge_sym e g,
  same_edge_sym f e,
  same_edge_trans f e g,
  same_edge_trans e g f,
  same_edge_sym f g,
)

pub member-same : (e f : Edge) (es : List Edge) → same_edge e f ≡ true → member e es ≡ member f es
unfolding member
member-same e f [] h = refl
member-same e f (g ∷ es) h = cc (same_edge_trans e f g h, member-same e f es h)

pub member-add :
    (e f : Edge) (es : List Edge) → member f (add e es) ≡ (same_edge f e || member f es)
unfolding add member
member-add e f es = ground (arith, member-same f e es)

-- No member stands in the list twice.
abbrev pub Distinct : List Edge → Type 0
Distinct [] = Unit {0}
Distinct (e ∷ es) = (member e es ≡ false) × Distinct es

pub Distinct-add : (e : Edge) (es : List Edge) → Distinct es → Distinct (add e es)
unfolding add
Distinct-add e es d = ground arith

pub Distinct-discard : (e : Edge) (es : List Edge) → Distinct es → Distinct (discard e es)
unfolding discard
Distinct-discard e [] d = tt
Distinct-discard e (f ∷ es) d = ground (arith, Distinct-discard e es d.1, member-discard e f es)

discard-absent : (e : Edge) (es : List Edge) → member e es ≡ false → discard e es ≡ es
unfolding discard member
discard-absent e [] h = refl
discard-absent e (f ∷ es) h = ground (arith, discard-absent e es)

-- Discarding a member of a set leaves one member less.
pub length-discard :
    (e : Edge) (es : List Edge)
    → Distinct es
    → member e es ≡ true
    → length (discard e es) + 1 ≡ length es
unfolding discard member
length-discard e [] d h = cc
length-discard e (f ∷ es) d h =
    ground (arith, length-discard e es d.1, member-same e f es, discard-absent e es)

-- A wall stands between two rooms in either order.
pub has_wall-swap : (s : WallEdgeSet) (a b c d : ℕ) → has_wall s a b c d ≡ has_wall s c d a b
unfolding has_wall
has_wall-swap s a b c d = go s.walls
  where
    go : (es : List Edge) → member ((a, b), (c, d)) es ≡ member ((c, d), (a, b)) es
    go [] = refl
    go (e ∷ es) = cc (same_edge-swap (a, b) (c, d) e, go es)
