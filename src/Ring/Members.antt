-- ===== src/Ring/Members.antt =====
-- The members of a ring after an insertion and after a removal.
use skibios.Prelude.{
  ℕ, ◌≤◌, ◌<◌, ◌≡◌, refl, not, ◌||◌, ◌&&◌, List, [], ◌∷◌, arith, ◌==◌, ltb, Bool-cases, inl, inr,
}
use skibios.Ring.{Chain, Below, elem}
use skibios.Ring.Split.{Chain-above}
use skibios.Ring.Edit.{insert, remove}

pub elem-insert : (i : ℕ) (r : List ℕ) (j : ℕ) → elem j (insert i r) ≡ (j == i) || elem j r
elem-insert i [] j = refl
elem-insert i (y ∷ r) j = ground (arith, elem-insert i r j)

pub elem-remove :
    (jmp : ℕ → ℕ) (x i : ℕ) (r : List ℕ) (j : ℕ)
    → Chain jmp x r
    → elem j (remove i r) ≡ not (j == i) && elem j r
elem-remove jmp x i [] j c = ground arith
elem-remove jmp x i (y ∷ r) j c =
    ground (arith, elem-remove jmp y i r j c.2, Chain-above jmp y r j c.2)

pub Below-insert : (n i : ℕ) (r : List ℕ) → i < n → Below n r → Below n (insert i r)
Below-insert n i [] h b = (h, tt)
Below-insert n i (y ∷ r) h b = elim (Bool-cases (ltb y i)) [
  | inl e ↦ rw e (b.0, Below-insert n i r h b.1)
  | inr e ↦ rw e (h, b)
]

pub Below-remove : (n i : ℕ) (r : List ℕ) → Below n r → Below n (remove i r)
Below-remove n i [] b = b
Below-remove n i (y ∷ r) b = elim (Bool-cases (i == y)) [
  | inl e ↦ rw e b.1
  | inr e ↦ rw e (b.0, Below-remove n i r b.1)
]

pub Below-mono : (m n : ℕ) (l : List ℕ) → m ≤ n → Below m l → Below n l
Below-mono m n [] h b = tt
Below-mono m n (x ∷ l) h b = (omega arith, Below-mono m n l h b.1)
