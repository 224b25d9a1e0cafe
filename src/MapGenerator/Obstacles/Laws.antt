-- ===== src/MapGenerator/Obstacles/Laws.antt =====
-- Clearing a safe zone only opens cells.
use maze_client.Prelude.{
  ℕ, ◌+◌, ◌*◌, ◌<◌, ◌≡◌, inl, inr, true, false, ltb, leb, if◌then◌else◌, ◌-◌, ◌&&◌, Bool-cases,
  arith,
}
use maze_client.Prelude.Int.{ℤ, pos, negsuc, sub_ℕ}
use maze_client.Prelude.Loop.{for_range_inv}
use maze_client.MapGenerator.Grid.{Grid, cell, Sized, Sized-write}
use maze_client.MapGenerator.Carve.Paint.{Paints-set_cell}
use maze_client.MapGenerator.Obstacles.{
  clear_at, clear_blocked_safe_zone, Placed, place, fill_room, is_safe, add_room_obstacles,
}
use maze_client.MapGenerator.Random.{Rng}

-- `g` has the size of the grid, and every cell that was open in `before` is open in it.
pub record OpenedFrom (n : ℕ) (before g : Grid) : Type 0 where
  pub sized : Sized n n g
  pub open_stays : (x y : ℕ) → cell before x y ≡ false → cell g x y ≡ false

clear_at-OpenedFrom :
    (n : ℕ) (before g : Grid) (nx ny : ℤ)
    → OpenedFrom n before g
    → OpenedFrom n before (clear_at n nx ny g)
unfolding clear_at
clear_at-OpenedFrom n before g (pos a) (pos b) o = elim (Bool-cases (ltb a n && ltb b n)) [
  | inl e ↦
      let p = Paints-set_cell n n false a b (in_range a b e).0 (in_range a b e).1 in
      rw e (record {
        sized = p.size g o.sized;
        open_stays = λ x y h. (p.law g o.sized x y).1 (inl (o.open_stays x y h));
      })
  | inr e ↦ rw e o
]
  where
    in_range : (a b : ℕ) → (ltb a n && ltb b n) ≡ true → (a < n) × (b < n)
    in_range a b e = ground arith
clear_at-OpenedFrom n before g (pos a) (negsuc b) o = o
clear_at-OpenedFrom n before g (negsuc a) ny o = o

pub clear_blocked_safe_zone-OpenedFrom :
    (n : ℕ) (before g : Grid) (gx gy radius : ℕ)
    → OpenedFrom n before g
    → OpenedFrom n before (clear_blocked_safe_zone g n gx gy radius)
unfolding clear_blocked_safe_zone
clear_blocked_safe_zone-OpenedFrom n before g gx gy radius o =
    for_range_inv (OpenedFrom n before) _
      (λ j s h.
        for_range_inv (OpenedFrom n before) _
          (λ i s' h'.
            clear_at-OpenedFrom n before s' (sub_ℕ (gx + i) radius) (sub_ℕ (gy + j) radius) h')
          0 (2 * radius + 1) s h)
      0 (2 * radius + 1) g o

pub place-Sized :
    (r : Rng) (n : ℕ) (density : r.Real) (x y : ℕ) (s : Placed r)
    → Sized n n s.0
    → Sized n n (place r density x y s).0
unfolding place
place-Sized r n density x y (blocked, rng) h = elim (Bool-cases (r.chance density rng).0) [
  | inl e ↦ rw e (Sized-write h x y true)
  | inr e ↦ rw e h
]

pub fill_room-Sized :
    (r : Rng) (n room_size : ℕ) (density : r.Real) (ry rx : ℕ) (s : Placed r)
    → Sized n n s.0
    → Sized n n (fill_room r room_size density ry rx s).0
unfolding fill_room
fill_room-Sized r n room_size density ry rx s h =
    for_range_inv (λ s. Sized n n s.0) _
      (λ dy t ht.
        for_range_inv (λ s. Sized n n s.0) _
          (λ dx u hu.
            place-Sized r n density (rx * (room_size + 1) + 1 + dx) (ry * (room_size + 1) + 1 + dy)
              u hu)
          lo hi t ht)
      lo hi s h
  where
    lo : ℕ
    lo = if leb 3 room_size then 1 else 0

    hi : ℕ
    hi = if leb 3 room_size then room_size - 1 else room_size

-- Obstacles do not change the size of the grid.
pub add_room_obstacles-Sized :
    (r : Rng) (n grid_dim room_size : ℕ) (density : r.Real) (sx sy ex ey safe : ℕ) (s : Placed r)
    → Sized n n s.0
    → Sized n n (add_room_obstacles r grid_dim room_size density sx sy ex ey safe s).0
unfolding add_room_obstacles
add_room_obstacles-Sized r n grid_dim room_size density sx sy ex ey safe s h =
    elim (Bool-cases (r.le_zero density)) [
      | inl e ↦ rw e h
      | inr e ↦ rw e (
          for_range_inv (λ s. Sized n n s.0) _
            (λ ry t ht.
              for_range_inv (λ s. Sized n n s.0) _ (λ rx u hu. in_room ry rx u hu) 0 grid_dim t ht)
            0 grid_dim s h)
    ]
  where
    in_room :
        (ry rx : ℕ) (u : Placed r)
        → Sized n n u.0
        → Sized n n
            (if is_safe r grid_dim room_size density sx sy ex ey safe ry rx
              then u
              else fill_room r room_size density ry rx u).0
    in_room ry rx u hu =
        elim (Bool-cases (is_safe r grid_dim room_size density sx sy ex ey safe ry rx)) [
          | inl e ↦ rw e hu
          | inr e ↦ rw e (fill_room-Sized r n room_size density ry rx u hu)
        ]
