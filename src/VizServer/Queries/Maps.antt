-- ===== src/VizServer/Queries/Maps.antt =====
-- `load_map`: a map that was loaded is served from then on.
use Prim.Native.String.{String}
use maze_client.Prelude.{
  ◌≡◌, ◌∙◌, refl, true, false, Bool-cases, Option, none, some, Option-cases, inl, inr,
}
use maze_client.VizServer.LineIndex.{cache_get}
use maze_client.VizServer.LineIndex.Grow.{cache_get-put_self}
use maze_client.VizServer.Disk.{Disk, Server, Error, is_unsafe}
use maze_client.VizServer.Queries.{load_map}

module _ {F M : Type 0} (disk : Disk F M) (map_id : String) where
  load_map-kept :
      (m : M) (s : Server M)
      → is_unsafe map_id ≡ false
      → cache_get map_id s.map_cache ≡ some m
      → load_map disk map_id s ≡ (some m, none, s)
  unfolding load_map
  load_map-kept m s safe found = rw (load_map, safe, found) refl

  -- A map that is returned is in the cache.
  abbrev Cached : Option M × Option Error × Server M → Type 0
  Cached (o, error, t) = (m : M) → o ≡ some m → cache_get map_id t.map_cache ≡ some m

  load_map-Cached : (s : Server M) → is_unsafe map_id ≡ false → Cached (load_map disk map_id s)
  unfolding load_map
  load_map-Cached s safe = elim (Option-cases (cache_get map_id s.map_cache)) [
    | inr (n, found) ↦ rw (load_map, safe, found) (λ m h. found ∙ h)
    | inl absent ↦ elim (Bool-cases (disk.exists_map map_id)) [
      | inr missing ↦ rw (load_map, safe, absent, missing) (λ m h. absurd (cc h))
      | inl there ↦ elim (Option-cases (disk.read_map map_id)) [
        | inl fails ↦ rw (load_map, safe, absent, there, fails) (λ m h. absurd (cc h))
        | inr (n, reads) ↦
            rw (load_map, safe, absent, there, reads)
              (λ m h. cache_get-put_self map_id n s.map_cache ∙ h)
      ]
    ]
  ]

  load_map-unsafe : (s : Server M) → is_unsafe map_id ≡ true → (load_map disk map_id s).0 ≡ none
  unfolding load_map
  load_map-unsafe s bad = rw (load_map, bad) refl

-- Once `load_map` has given a map, it gives the same map and changes nothing, whatever has become of
-- the file.
pub load_map-again :
    {F M : Type 0} (disk later : Disk F M) (map_id : String) (m : M) (s : Server M)
    → let t = (load_map disk map_id s).2 in
      (load_map disk map_id s).0 ≡ some m → load_map later map_id t ≡ (some m, none, t)
load_map-again disk later map_id m s loaded = elim (Bool-cases (is_unsafe map_id)) [
  | inl bad ↦ absurd (cc (load_map-unsafe disk map_id s bad))
  | inr safe ↦ load_map-kept later map_id m _ safe (load_map-Cached disk map_id s safe m loaded)
]
