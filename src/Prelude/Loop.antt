-- ===== src/Prelude/Loop.antt =====
-- `for i in range(lo, hi)` over a state, with its invariant rule.
use Prim.Native.Nat.{ℕ, zero, suc, ◌+◌, ◌-◌, ◌≤◌, ◌<◌}
use mathlib.Core.Path.{◌≡◌, subst}
use native.Mathlib.Decide.{dec_lt}
use native.Mathlib.Omega.{arith}

unfoldable pub rounds {ℓ} : {S : Type ℓ} → ℕ → ℕ → (ℕ → S → S) → S → S
rounds zero i body s = s
rounds (suc n) i body s = rounds n (i + 1) body (body i s)

unfoldable pub for_range {ℓ} : {S : Type ℓ} → ℕ → ℕ → (ℕ → S → S) → S → S
unfolding rounds
for_range lo hi body s = rounds (hi - lo) lo body s

rounds_inv {ℓ κ} :
    {S : Type ℓ} (P : S → Type κ) (body : ℕ → S → S)
    → ((i : ℕ) (s : S) → P s → P (body i s))
    → (n i : ℕ) (s : S) → P s
    → P (rounds n i body s)
unfolding rounds
rounds_inv P body keep zero i s h = h
rounds_inv P body keep (suc n) i s h = rounds_inv P body keep n (i + 1) (body i s) (keep i s h)

-- What every round keeps holds after the loop.
pub for_range_inv {ℓ κ} :
    {S : Type ℓ} (P : S → Type κ) (body : ℕ → S → S)
    → ((i : ℕ) (s : S) → P s → P (body i s))
    → (lo hi : ℕ) (s : S) → P s
    → P (for_range lo hi body s)
unfolding for_range
for_range_inv P body keep lo hi s h = rounds_inv P body keep (hi - lo) lo s h

rounds_at {ℓ κ} :
    {S : Type ℓ} (P : ℕ → S → Type κ) (body : ℕ → S → S) (hi : ℕ)
    → ((i : ℕ) (s : S) → i < hi → P i s → P (i + 1) (body i s))
    → (n i : ℕ) (s : S) → i + n ≡ hi
    → P i s
    → P hi (rounds n i body s)
unfolding rounds
rounds_at P body hi keep zero i s e h = subst (λ k. P k s) at_end h
  where
    at_end : i ≡ hi
    at_end = omega arith
rounds_at P body hi keep (suc n) i s e h =
    rounds_at P body hi keep n (i + 1) (body i s) (omega arith) (keep i s (omega arith) h)

-- What every round carries on to the next index holds at the last.
pub for_range_at {ℓ κ} :
    {S : Type ℓ} (P : ℕ → S → Type κ) (body : ℕ → S → S) (lo hi : ℕ)
    → ((i : ℕ) (s : S) → i < hi → P i s → P (i + 1) (body i s))
    → lo ≤ hi
    → (s : S) → P lo s
    → P hi (for_range lo hi body s)
unfolding for_range
for_range_at P body lo hi keep le s h = rounds_at P body hi keep (hi - lo) lo s (omega arith) h

-- What every round with an index of the range keeps holds after the loop.
pub for_range_between {ℓ κ} :
    {S : Type ℓ} (P : S → Type κ) (body : ℕ → S → S) (lo hi : ℕ)
    → ((i : ℕ) (s : S) → lo ≤ i → i < hi → P s → P (body i s))
    → (s : S) → P s
    → P (for_range lo hi body s)
unfolding for_range
for_range_between P body lo hi keep s h = elim (dec_lt lo hi) [
  | yes some_round ↦
      (for_range_at (λ i s. (lo ≤ i) × P s) body lo hi
        (λ i t up p. (omega arith, keep i t p.0 up p.1)) (omega arith) s (omega arith, h)).1
  | no no_round ↦ (let e : hi - lo ≡ 0 = omega arith in rw (for_range, e) h)
]
