-- ===== src/Ring/Previous.antt =====
-- The search for the predecessor (`svc_service_task_kill` of src/service/svr_task.c) on a ring.
use skibios.Prelude.{
  ℕ, ◌+◌, ◌-◌, ◌≤◌, ◌<◌, ◌≡◌, true, List, [], ◌∷◌, arith, ◌==◌, ltb, ltb→lt, u32, sext8, Bool-cases,
  inl, inr,
}
use skibios.Ring.{Chain, Below, elem}
use skibios.Ring.Split.{Chain-above}
use skibios.Ring.Edit.{previous, previous_bounds}

-- The task that a step leads to, in the arithmetic of the comparison.
abbrev pub target : (ℕ → ℕ) → ℕ → ℕ
target jmp m = u32 (m + sext8 (jmp m))

-- The step from the predecessor leads to the task.
pub target-previous :
    (jmp : ℕ → ℕ) (x : ℕ) (r : List ℕ) (i : ℕ)
    → x < i
    → Below 128 (x ∷ r)
    → elem i r ≡ true
    → Chain jmp x r
    → target jmp (previous x r i) ≡ i
target-previous jmp x [] i h s n c = ground arith
target-previous jmp x (y ∷ r) i h s n c = elim (Bool-cases (ltb y i)) [
  | inl e ↦ rw e (target-previous jmp y r i (ltb→lt y i e) s.1 (ground arith) c.2)
  | inr e ↦ let same : y ≡ i = ground (arith, Chain-above jmp y r i c.2) in rw e (ground arith)
]

-- A step from a task before the predecessor does not lead beyond it.
pub target-before :
    (jmp : ℕ → ℕ) (x : ℕ) (r : List ℕ) (i m : ℕ)
    → x < i
    → Below 128 (x ∷ r)
    → Chain jmp x r
    → elem m (x ∷ r) ≡ true
    → m < previous x r i
    → target jmp m ≤ previous x r i
target-before jmp x [] i m h s c e l = ground arith
target-before jmp x (y ∷ r) i m h s c e l = elim (Bool-cases (ltb y i)) [
  | inl f ↦ elim (Bool-cases (m == x)) [
    | inl g ↦ ground (arith, previous_bounds jmp y r i (ltb→lt y i f) c.2)
    | inr g ↦ rw f (target-before jmp y r i m (ltb→lt y i f) s.1 c.2 (ground arith) (ground arith))
  ]
  | inr f ↦ ground (arith, Chain-above jmp x (y ∷ r) m c)
]

-- If all indices below `i` belong to the ring, the predecessor is the index before.
pub previous-pred :
    (jmp : ℕ → ℕ) (x : ℕ) (r : List ℕ) (i : ℕ)
    → x < i
    → Chain jmp x r
    → elem (i - 1) (x ∷ r) ≡ true
    → previous x r i ≡ i - 1
previous-pred jmp x [] i h c e = ground arith
previous-pred jmp x (y ∷ r) i h c e = elim (Bool-cases (ltb y i)) [
  | inl f ↦ rw f (previous-pred jmp y r i (ltb→lt y i f) c.2 (ground arith))
  | inr f ↦ ground (arith, Chain-above jmp y r (i - 1) c.2)
]
