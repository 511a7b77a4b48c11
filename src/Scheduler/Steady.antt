-- ===== src/Scheduler/Steady.antt =====
-- The steady state in which `scheduler` (src/kernel.c) is called, and what its parts keep of it.
use skibios.Prelude.{
  ℕ, ◌-◌, ◌≤◌, ◌<◌, ◌≡◌, ◌≢◌, ap, ◌∙◌, true, List, ◌∷◌, arith, ◌==◌, if◌then◌else◌,
}
use skibios.Kvar.{Kernel, task_state_sleep, task_state_active}
use skibios.Hardware.{disable_scheduler}
use skibios.Ring.{IsRing, elem, is_live}
use skibios.Ring.Split.{IsRing-congr}
use skibios.Scheduler.{Scan, retire_current, dispatch_next}
use skibios.Scheduler.Sweep.{woken}

-- `level_stash` as it is meant to be: the levels in use, in increasing order, from the base task's
-- level 0 to the highest, at least two of them.
pub record IsStash (n : ℕ) (k : Kernel) (r : List ℕ) : Type 0 where
  pub base : k.level_stash 0 ≡ 0
  pub two : 2 ≤ k.lstash_ptr
  pub fits : k.lstash_ptr ≤ n
  pub top : k.level_stash (k.lstash_ptr - 1) ≡ k.max_level
  pub sorted : (p q : ℕ) → p ≤ q → q < k.lstash_ptr → k.level_stash p ≤ k.level_stash q
  pub covers :
      (y : ℕ)
      → elem y (0 ∷ r) ≡ true
      → (q : ℕ) × (q < k.lstash_ptr) × (k.level_stash q ≡ k.prio_current y)

-- The state of the kernel when the sweep begins.
abbrev pub at_sweep : Kernel → Kernel
at_sweep k = retire_current (disable_scheduler k)

-- When the scheduler runs: the last context switch has been made, the base task sleeps or is about
-- to, and its level is 0.
pub record IsSteady (n : ℕ) (k : Kernel) (r : List ℕ) : Type 0 where
  pub ring : IsRing n k r
  pub stash : IsStash n k r
  pub dws : k.enable_dws ≡ true
  pub switched : k.next_task ≡ k.current_task
  pub alive : elem k.current_task (0 ∷ r) ≡ true
  pub base_sleeps : (at_sweep k).state 0 ≡ task_state_sleep
  pub base_level : k.prio_current 0 ≡ 0

-- The choice of the scheduler, seen from the states that the sweep has left.
pub record IsChoice (n : ℕ) (k : Kernel) (r : List ℕ) (k' : Kernel) : Type 0 where
  pub in_ring : elem k'.next_task (0 ∷ r) ≡ true
  pub was_ready : woken (at_sweep k) k'.next_task ≡ task_state_sleep
  pub active : k'.state k'.next_task ≡ task_state_active
  pub normal : k'.normal_schedule ≡ true
  pub rest : (i : ℕ) → i < n → i ≢ k'.next_task → k'.state i ≡ woken (at_sweep k) i
  pub highest :
      (y : ℕ)
      → elem y (0 ∷ r) ≡ true
      → y ≢ k.current_task
      → woken (at_sweep k) y ≡ task_state_sleep
      → k.prio_current y ≤ k.prio_current k'.next_task

module _ (n : ℕ) (k : Kernel) (r : List ℕ) where
  pub at_sweep-jmp_list : (at_sweep k).jmp_list ≡ k.jmp_list
  unfolding retire_current disable_scheduler
  at_sweep-jmp_list = ground arith

  at_sweep-live :
      (i : ℕ)
      → i < n
      → IsRing n k r
      → elem k.current_task (0 ∷ r) ≡ true
      → is_live (at_sweep k) i ≡ is_live k i
  unfolding retire_current disable_scheduler
  at_sweep-live i hi v h = ground (arith, v.live i hi)

  pub at_sweep-IsRing : IsRing n k r → elem k.current_task (0 ∷ r) ≡ true → IsRing n (at_sweep k) r
  at_sweep-IsRing v h =
      IsRing-congr n k (at_sweep k) r at_sweep-jmp_list (λ i hi. at_sweep-live i hi v h) v

-- What the head of the scheduler leaves alone.
pub record KeepsHead (k k' : Kernel) : Type 0 where
  pub next_task : k'.next_task ≡ k.next_task
  pub current_task : k'.current_task ≡ k.current_task
  pub prio_current : k'.prio_current ≡ k.prio_current
  pub level_stash : k'.level_stash ≡ k.level_stash
  pub lstash_ptr : k'.lstash_ptr ≡ k.lstash_ptr
  pub max_level : k'.max_level ≡ k.max_level
  pub enable_dws : k'.enable_dws ≡ k.enable_dws

pub at_sweep-KeepsHead : (k : Kernel) → KeepsHead k (at_sweep k)
unfolding retire_current disable_scheduler
at_sweep-KeepsHead k = ground arith

pub at_sweep-normal : (k : Kernel) → (at_sweep k).normal_schedule ≡ true
unfolding retire_current disable_scheduler
at_sweep-normal k = ground arith

pub dispatch_next-normal :
    (k : Kernel) (s : Scan) → (dispatch_next k s).normal_schedule ≡ k.normal_schedule
unfolding dispatch_next
dispatch_next-normal k s = ground arith

pub dispatch_next-fields :
    (k : Kernel) (s : Scan)
    → ((dispatch_next k s).next_task ≡ s.next)
      × ((i : ℕ)
          → (dispatch_next k s).state i ≡ (if i == s.next then task_state_active else k.state i))
unfolding dispatch_next
dispatch_next-fields k s = (ground arith, λ i. ground arith)

pub IsStash-congr :
    (n : ℕ) (k k2 : Kernel) (r : List ℕ)
    → k2.level_stash ≡ k.level_stash
    → k2.lstash_ptr ≡ k.lstash_ptr
    → k2.max_level ≡ k.max_level
    → k2.prio_current ≡ k.prio_current
    → IsStash n k r
    → IsStash n k2 r
IsStash-congr n k k2 r e1 e2 e3 e4 v = record {
  base = ap (λ f. f 0) e1 ∙ v.base;
  two = rw e2 v.two;
  fits = rw e2 v.fits;
  top = ground (arith, v.top, ap (λ f. f (k.lstash_ptr - 1)) e1);
  sorted = λ p q h l. ground (arith, v.sorted p q, ap (λ f. f p) e1, ap (λ f. f q) e1);
  covers = λ y h.
      let (q, l, e) = v.covers y h in
      (q, rw e2 l, ground (arith, ap (λ f. f q) e1, ap (λ f. f y) e4));
}
