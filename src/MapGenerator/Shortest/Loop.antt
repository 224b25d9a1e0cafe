-- ===== src/MapGenerator/Shortest/Loop.antt =====
-- The outer loop: it ends within its fuel, with the length of a shortest walk between two cell
-- numbers or with -1 where there is none.
use maze_client.Prelude.{
  ℕ, zero, suc, ◌+◌, ◌*◌, ◌≤◌, ◌<◌, ◌==◌, ◌≡◌, ◌≢◌, ◌⊎◌, inl, inr, refl, sym, ap, ◌∙◌, false,
  Option, some, List, [], ◌∷◌, length, get_or, set, replicate, ◌∈◌, arith, Bool-cases, ==_iff,
  ℕ_discrete, length-set, length-replicate, get_or-set_self, get_or-set_ne,
}
use maze_client.Prelude.Int.{ℤ, pos}
use maze_client.MapGenerator.Grid.{Grid}
use maze_client.MapGenerator.Shortest.{Search, minus_one, still, search_loop}
use maze_client.MapGenerator.Shortest.Levels.{unseen}
use maze_client.MapGenerator.Shortest.Visit.{Walk, here, step, Inv, SeenBy}
use maze_client.MapGenerator.Shortest.Round.{Round, offer-Round}

module _ (blocked : Grid) (cols rows src goal : ℕ) where
  -- A walk leads to a cell with a distance no larger, or is longer than `j`, if no cell in the
  -- queue is nearer than `j`.
  Walk-seen :
      (k j : ℕ) (ds : List ℤ) (q : List ℕ)
      → Inv blocked cols rows src k ds q
      → ((v d : ℕ) → v ∈ q → get_or ds v minus_one ≡ pos d → j ≤ d)
      → {v d : ℕ} → Walk blocked cols rows src v d
      → SeenBy blocked cols rows src ds v d ⊎ (j < d)
  Walk-seen k j ds q i least here = inl (0, i.source, omega arith)
  Walk-seen k j ds q i least (step {u} {v} {d} w edge) = elim (Walk-seen k j ds q i least w) [
    | inl (e, a, le) ↦ elim (i.closed u e a) [
      | inl waits ↦ let near = least u e waits a in inr (omega arith)
      | inr done ↦ let (f, b, le') = done v edge in inl (f, b, omega arith)
    ]
    | inr far ↦ inr (omega arith)
  ]

  -- What the search says of the walks to the goal.
  abbrev pub Answer : Option ℤ → Type 0
  Answer r =
      ((d : ℕ) × (r ≡ some (pos d))
        × Walk blocked cols rows src goal d
        × ((e : ℕ) → Walk blocked cols rows src goal e → d ≤ e))
      ⊎ (r ≡ some minus_one) × ((e : ℕ) → ¬ Walk blocked cols rows src goal e)

  least-Walk :
      {k u : ℕ} {ds : List ℤ} {q : List ℕ} {t : Search}
      → Inv blocked cols rows src k ds (u ∷ q)
      → (r : Round blocked cols rows src u ds q t) → goal ≡ u
      → (e : ℕ) → Walk blocked cols rows src goal e
      → r.j ≤ e
  least-Walk {k} {u} {ds} {q} i r same e w = elim (Walk-seen k r.j ds (u ∷ q) i r.least w) [
    | inl (n, a, le) ↦ let near = r.least goal n (inl same) a in omega arith
    | inr far ↦ omega arith
  ]

  todo_next :
      {u : ℕ} {ds : List ℤ} {q : List ℕ} {t : Search}
      → Round blocked cols rows src u ds q t
      → ((d : ℕ) → get_or ds goal minus_one ≡ pos d → goal ∈ (u ∷ q))
      → goal ≢ u
      → (d : ℕ) → get_or t.distance goal minus_one ≡ pos d
      → goal ∈ t.queue
  todo_next r todo ne d h = elim (r.fresh goal d h) [
    | inl old ↦ elim (todo d old) [ inl same ↦ absurd (ne same) | inr waits ↦ r.kept goal waits ]
    | inr new ↦ new
  ]

  ne_of_test : {u : ℕ} → (u == goal) ≡ false → goal ≢ u
  ne_of_test e same = ground arith

  pub search_loop-Answer :
      (fuel k : ℕ) (ds : List ℤ) (q : List ℕ)
      → Inv blocked cols rows src k ds q
      → ((d : ℕ) → get_or ds goal minus_one ≡ pos d → goal ∈ q)
      → unseen ds + length q ≤ fuel
      → Answer (search_loop blocked cols rows fuel goal ds q)
  unfolding search_loop
  search_loop-Answer fuel k ds [] i todo f = inr (
    refl,
    λ e w. elim (Walk-seen k (suc e) ds [] i (λ v d m. absurd m) w) [
      | inl (d, a, _) ↦ todo d a
      | inr far ↦ absurd (omega arith)
    ],
  )
  search_loop-Answer zero k ds (u ∷ q) i todo f = absurd (omega arith)
  search_loop-Answer (suc fuel) k ds (u ∷ q) i todo f =
      let r = offer-Round blocked cols rows src u k ds q i in
      elim (Bool-cases (u == goal)) [
        | inl e ↦
            let same : goal ≡ u = sym ((==_iff u goal).0 e) in
            rw (e, r.level) (inl (r.j, refl, rw same r.walk, least-Walk i r same))
        | inr e ↦ rw e (
            search_loop-Answer fuel r.j _ _ r.inv (todo_next r todo (λ s. ne_of_test e s))
              (omega (arith, r.work)))
      ]

unseen-replicate : (n : ℕ) → unseen (replicate n minus_one) ≡ n
unseen-replicate zero = refl
unseen-replicate (suc n) = ap suc (unseen-replicate n)

get_or-unset : (n i : ℕ) → get_or (replicate n minus_one) i minus_one ≡ minus_one
get_or-unset zero i = refl
get_or-unset (suc n) zero = refl
get_or-unset (suc n) (suc i) = get_or-unset n i

unseen-start : (n i : ℕ) → i < n → suc (unseen (set (replicate n minus_one) i still)) ≡ n
unseen-start zero i h = absurd (omega arith)
unseen-start (suc n) zero h = ap suc (unseen-replicate n)
unseen-start (suc n) (suc i) h = omega (arith, unseen-start n i (omega arith))

module _ (blocked : Grid) (cols rows src : ℕ) (hs : src < cols * rows) where
  abbrev first : List ℤ
  first = set (replicate (cols * rows) minus_one) src still

  only_first : (x d : ℕ) → get_or first x minus_one ≡ pos d → (x ≡ src) × (d ≡ 0)
  only_first x d h = elim (ℕ_discrete src x) [
    | yes same ↦ (sym same, zero_of (at_src ∙ refl) (rw (← same) at h))
    | no other ↦ absurd (
        none_set
          (get_or-set_ne (replicate (cols * rows) minus_one) src x still minus_one other
            ∙ get_or-unset (cols * rows) x)
          h)
  ]
    where
      at_src : get_or first src minus_one ≡ pos 0
      at_src =
          get_or-set_self (replicate (cols * rows) minus_one) src still minus_one
            (rw length-replicate hs)

      zero_of : get_or first src minus_one ≡ pos 0 → get_or first src minus_one ≡ pos d → d ≡ 0
      zero_of a b = ground arith

      none_set : get_or first x minus_one ≡ minus_one → get_or first x minus_one ≡ pos d → ⊥
      none_set a b = cc

  Inv-first : Inv blocked cols rows src 0 first (src ∷ [])
  Inv-first = record {
    size = length-set _ src still ∙ length-replicate (cols * rows) minus_one;
    source =
        get_or-set_self (replicate (cols * rows) minus_one) src still minus_one
          (rw length-replicate hs);
    band = inl (
      get_or-set_self (replicate (cols * rows) minus_one) src still minus_one
          (rw length-replicate hs),
      tt,
    );
    sound = λ v d h. let (p, q) = only_first v d h in (rw (p, q) here, omega arith);
    closed = λ x d h. inl (inl (only_first x d h).0);
  }

  pub search-Answer :
      (goal : ℕ)
      → Answer blocked cols rows src goal
          (search_loop blocked cols rows (cols * rows) goal first (src ∷ []))
  search-Answer goal =
      search_loop-Answer blocked cols rows src goal (cols * rows) 0 first (src ∷ []) Inv-first
        (λ d h. inl (only_first goal d h).0) (omega (arith, unseen-start (cols * rows) src hs))
