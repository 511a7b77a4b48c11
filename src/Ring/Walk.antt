-- ===== src/Ring/Walk.antt =====
-- Walks along the jump list, and the tour that starts at any task of a ring.
use skibios.Prelude.{
  ℕ, ◌+◌, ◌≤◌, ◌≡◌, refl, List, [], ◌∷◌, ◌++◌, arith, u8, u32, sext8, true, Bool-cases, inl, inr,
  ◌==◌,
}
use skibios.Ring.{Chain, Below, elem}

-- The walk from `x` visits the list and stops at `z`.
abbrev pub Walk : (ℕ → ℕ) → ℕ → List ℕ → ℕ → Type 0
Walk jmp x [] z = x ≡ z
Walk jmp x (y ∷ l) z = (x ≡ y) × Walk jmp (u8 (x + jmp x)) l z

pub Chain-Walk :
    {n : ℕ} (jmp : ℕ → ℕ) (x : ℕ) (r : List ℕ)
    → n ≤ 128
    → Below n (x ∷ r)
    → Chain jmp x r
    → Walk jmp x (x ∷ r) 0
Chain-Walk jmp x [] s b c = (refl, omega arith)
Chain-Walk {n} jmp x (y ∷ r) s b c = (refl, rw step (Chain-Walk {n = n} jmp y r s b.1 c.2))
  where
    step : u8 (x + jmp x) ≡ y
    step = omega arith

pub Walk-split :
    (jmp : ℕ → ℕ) (x : ℕ) (l m : List ℕ) (z : ℕ)
    → Walk jmp x (l ++ m) z
    → (y : ℕ) × Walk jmp x l y × Walk jmp y m z
Walk-split jmp x [] m z w = (x, refl, w)
Walk-split jmp x (a ∷ l) m z w =
    let (y, p, q) = Walk-split jmp (u8 (x + jmp x)) l m z w.1 in (y, (w.0, p), q)

pub Walk-append :
    (jmp : ℕ → ℕ) (x : ℕ) (l m : List ℕ) (y z : ℕ)
    → Walk jmp x l y
    → Walk jmp y m z
    → Walk jmp x (l ++ m) z
Walk-append jmp x [] m y z w v = rw w v
Walk-append jmp x (a ∷ l) m y z w v = (w.0, Walk-append jmp (u8 (x + jmp x)) l m y z w.1 v)

-- A tour that starts in the middle of the ring comes back to where it started.
pub Walk-rotate :
    (jmp : ℕ → ℕ) (x z : ℕ) (l m : List ℕ) → Walk jmp z (l ++ x ∷ m) z → Walk jmp x ((x ∷ m) ++ l) x
Walk-rotate jmp x z l m w =
    let (y, p, q) = Walk-split jmp z l (x ∷ m) z w in
    Walk-append jmp x (x ∷ m) l z x (rw q.0 at q) (rw q.0 at p)

-- A step in 32-bit arithmetic, with the offset sign-extended, is the step in 8 bits.
abbrev pub Exact : (ℕ → ℕ) → ℕ → Type 0
Exact jmp i = u32 (i + sext8 (jmp i)) ≡ u8 (i + jmp i)

pub Chain-Exact :
    (n : ℕ) (jmp : ℕ → ℕ) (x : ℕ) (r : List ℕ) (i : ℕ)
    → n ≤ 120
    → Below n (x ∷ r)
    → Chain jmp x r
    → elem i (x ∷ r) ≡ true
    → Exact jmp i
Chain-Exact n jmp x [] i s b c h = ground arith
Chain-Exact n jmp x (y ∷ r) i s b c h = elim (Bool-cases (i == x)) [
  | inl e ↦ ground arith
  | inr e ↦ Chain-Exact n jmp y r i s b.1 c.2 (ground arith)
]
