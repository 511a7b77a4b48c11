-- ===== src/Prelude/Loops.antt =====
-- The two counted loops of the kernel: one with a body, and one that stops at the first hit.
use Prim.Native.Nat.{ℕ, zero, suc, ◌+◌, ◌≤◌, ◌<◌}
use mathlib.Core.Path.{◌≡◌}
use mathlib.Core.Bool.{Bool, true, false}
use native.Mathlib.Omega.{arith}
use skibios.Prelude.Tests.{Bool-cases}
use mathlib.Core.Logic.{inl, inr}

-- for (k = first; k < first + rounds; k++) x = step(k, x);
unfoldable pub for_range {ℓ} : {X : Type ℓ} → ℕ → ℕ → (ℕ → X → X) → X → X
for_range zero first step x = x
for_range (suc rounds) first step x = for_range rounds (first + 1) step (step first x)

-- What each round keeps, the loop keeps.
module _ {ℓ κ} {X : Type ℓ} (Kept : X → Type κ) (step : ℕ → X → X)
    (one : (k : ℕ) (x : X) → Kept x → Kept (step k x)) where
  pub for_range_inv : (rounds first : ℕ) (x : X) → Kept x → Kept (for_range rounds first step x)
  unfolding for_range
  for_range_inv zero first x v = v
  for_range_inv (suc rounds) first x v =
      for_range_inv rounds (first + 1) (step first x) (one first x v)

-- for (k = i; k < i + n; k++) if (p(k)) break;  the index at which the loop stops.
unfoldable pub find_first : ℕ → ℕ → (ℕ → Bool) → ℕ
find_first zero i p = i
find_first (suc n) i p = elim (p i) [ true ↦ i | false ↦ find_first n (i + 1) p ]

pub find_first_bounds :
    (n i : ℕ) (p : ℕ → Bool) → (i ≤ find_first n i p) × (find_first n i p ≤ i + n)
unfolding find_first
find_first_bounds zero i p = omega arith
find_first_bounds (suc n) i p = ground (arith, find_first_bounds n (i + 1) p)

-- Where the loop stops before its end, the test holds.
pub find_first_hit :
    (n i : ℕ) (p : ℕ → Bool) → find_first n i p < i + n → p (find_first n i p) ≡ true
unfolding find_first
find_first_hit zero i p h = absurd (omega arith)
find_first_hit (suc n) i p h = elim (Bool-cases (p i)) [
  | inl e ↦ rw (e, find_first) e
  | inr e ↦ rw (e, find_first) (find_first_hit n (i + 1) p (ground arith))
]

-- The test fails at every index before it.
pub find_first_before :
    (n i : ℕ) (p : ℕ → Bool) (j : ℕ) → i ≤ j → j < find_first n i p → p j ≡ false
unfolding find_first
find_first_before zero i p j h l = absurd (omega arith)
find_first_before (suc n) i p j h l = elim (Bool-cases (p i)) [
  | inl e ↦ ground arith
  | inr e ↦ ground (arith, find_first_before n (i + 1) p j)
]

-- The one index of the range that passes is the result.
pub find_first_unique :
    (n i : ℕ) (p : ℕ → Bool) (j : ℕ)
    → i ≤ j
    → j < i + n
    → p j ≡ true
    → ((m : ℕ) → i ≤ m → m < j → p m ≡ false)
    → find_first n i p ≡ j
unfolding find_first
find_first_unique zero i p j h l t m = absurd (omega arith)
find_first_unique (suc n) i p j h l t m = elim (Bool-cases (p i)) [
  | inl e ↦ ground (arith, m i)
  | inr e ↦ ground (
    arith,
    find_first_unique n (i + 1) p j (ground arith) (ground arith) t (λ x a b. m x (omega arith) b),
  )
]
