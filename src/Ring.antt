-- ===== src/Ring.antt =====
-- The jump list (`jmp_list` of src/kvar.c) as a ring: from the base task, offset by offset, through
-- the live tasks in the order of their indices, and from the last one back to index 0.
pub mod Walk
pub mod Split
pub mod Edit
pub mod Previous
pub mod Members
use skibios.Prelude.{ℕ, ◌+◌, ◌-◌, ◌%◌, ◌<◌, ◌≡◌, Bool, true, false, not, ◌||◌, List, [], ◌∷◌, ◌==◌}
use skibios.Kvar.{Kernel, task_state_idle}

abbrev pub elem : ℕ → List ℕ → Bool
elem i [] = false
elem i (x ∷ xs) = (i == x) || elem i xs

-- The offsets from `x` on lead through the list, in increasing order, and then back to 0.
abbrev pub Chain : (ℕ → ℕ) → ℕ → List ℕ → Type 0
Chain jmp x [] = jmp x ≡ (256 - x) % 256
Chain jmp x (y ∷ r) = (x < y) × (jmp x ≡ y - x) × Chain jmp y r

abbrev pub Below : ℕ → List ℕ → Type 0
Below n [] = Unit
Below n (x ∷ xs) = (x < n) × Below n xs

abbrev pub is_live : Kernel → ℕ → Bool
is_live k i = not (k.state i == task_state_idle)

-- `0 ∷ r` are the live tasks, and the offsets of all others are 0.
pub record IsRing (n : ℕ) (k : Kernel) (r : List ℕ) : Type 0 where
  pub chain : Chain k.jmp_list 0 r
  pub below : Below n (0 ∷ r)
  pub live : (i : ℕ) → i < n → is_live k i ≡ elem i (0 ∷ r)
  pub unlinked : (i : ℕ) → elem i (0 ∷ r) ≡ false → k.jmp_list i ≡ 0

-- The ring and the place in it are the same.
abbrev pub SameRing : Kernel → Kernel → Type 0
SameRing k m = (m.jmp_list ≡ k.jmp_list) × (m.state ≡ k.state) × (m.next_task ≡ k.next_task)
