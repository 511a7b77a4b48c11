-- ===== src/Scheduler/Sweep.antt =====
-- The sweep of `scheduler` (src/kernel.c): it ends, and it wakes exactly the tasks that are due.
use skibios.Prelude.{
  ℕ, zero, suc, ◌+◌, ◌≡◌, ◌≤◌, ◌<◌, refl, subst, ◌∙◌, Bool, true, false, ◌&&◌, some, List, [], ◌∷◌,
  arith, ◌==◌, leb, if◌then◌else◌, u8, length,
}
use skibios.Kvar.{Kernel, task_state_sleep, task_state_hibernate_g, task_state_hibernate_l}
use skibios.Ring.{IsRing, elem, is_live}
use skibios.Ring.Walk.{Walk}
use skibios.Ring.Split.{others, Tour, IsRing-Tour, elem-Below, elem_tour}
use skibios.Scheduler.{check_hibernate, elapsed, sweep}

abbrev pub sweep_list : Kernel → List ℕ → Kernel
sweep_list k [] = k
sweep_list k (i ∷ l) = sweep_list (check_hibernate k i) l

-- What a check leaves alone.
pub record Keeps (k k' : Kernel) : Type 0 where
  pub jmp_list : k'.jmp_list ≡ k.jmp_list
  pub next_task : k'.next_task ≡ k.next_task
  pub current_task : k'.current_task ≡ k.current_task
  pub prio_current : k'.prio_current ≡ k.prio_current
  pub level_stash : k'.level_stash ≡ k.level_stash
  pub lstash_ptr : k'.lstash_ptr ≡ k.lstash_ptr
  pub max_level : k'.max_level ≡ k.max_level
  pub enable_dws : k'.enable_dws ≡ k.enable_dws
  pub normal_schedule : k'.normal_schedule ≡ k.normal_schedule
  pub mem : k'.mem ≡ k.mem
  pub op1 : k'.op1 ≡ k.op1
  pub op2 : k'.op2 ≡ k.op2
  pub hib_value : k'.hib_value ≡ k.hib_value

check-Keeps : (k : Kernel) (i : ℕ) → Keeps k (check_hibernate k i)
unfolding check_hibernate
check-Keeps k i = ground arith

pub sweep_list-Keeps : (k : Kernel) (l : List ℕ) → Keeps k (sweep_list k l)
sweep_list-Keeps k [] = ground arith
sweep_list-Keeps k (i ∷ l) =
    ground (arith, check-Keeps k i, sweep_list-Keeps (check_hibernate k i) l)

sweep-Walk :
    (fuel : ℕ) (jmp : ℕ → ℕ) (k : Kernel) (i z : ℕ) (l : List ℕ)
    → k.jmp_list ≡ jmp
    → k.next_task ≡ z
    → Walk jmp i (i ∷ l) z
    → elem z l ≡ false
    → length l < fuel
    → sweep fuel k i ≡ some (sweep_list k (i ∷ l))
unfolding sweep
sweep-Walk zero jmp k i z l e f w o s = absurd (omega arith)
sweep-Walk (suc fuel) jmp k i z [] e f w o s = ground arith
sweep-Walk (suc fuel) jmp k i z (j ∷ l) e f w o s = ground (
  arith,
  sweep-Walk fuel jmp (check_hibernate k i) j z l ((check-Keeps k i).jmp_list ∙ e)
      ((check-Keeps k i).next_task ∙ f)
      (refl, subst (λ y. Walk jmp (u8 (y + jmp y)) l z) w.1.0 w.1.1) (ground arith) (omega arith),
)

-- The state after the check of a task in the state `s`: what the source's comment asks for.
abbrev pub due : ℕ → ℕ → ℕ → ℕ
due s value difference =
    if (s == task_state_hibernate_g) && leb value difference
    then task_state_sleep
    else (if (s == task_state_hibernate_l) && leb difference value then task_state_sleep else s)

abbrev pub woken : Kernel → ℕ → ℕ
woken k i = due (k.state i) (k.hib_value i) (elapsed k i)

check-woken :
    (k : Kernel) (i j : ℕ)
    → (check_hibernate k i).state j ≡ (if j == i then woken k j else k.state j)
unfolding check_hibernate
check-woken k i j = ground arith

due_twice : (s v d : ℕ) → due (due s v d) v d ≡ due s v d
due_twice s v d = ground arith

due_checked : (b : Bool) (s v d : ℕ) → due (if b then due s v d else s) v d ≡ due s v d
due_checked true s v d = due_twice s v d
due_checked false s v d = refl

elapsed-check : (k : Kernel) (i j : ℕ) → elapsed (check_hibernate k i) j ≡ elapsed k j
elapsed-check k i j = let p = check-Keeps k i in rw (p.mem, p.op1, p.op2) refl

woken-check : (k : Kernel) (i j : ℕ) → woken (check_hibernate k i) j ≡ woken k j
woken-check k i j =
    rw (check-woken k i j, elapsed-check k i j, (check-Keeps k i).hib_value)
      (due_checked (j == i) (k.state j) (k.hib_value j) (elapsed k j))

sweep_list-woken :
    (k : Kernel) (l : List ℕ) (j : ℕ)
    → (sweep_list k l).state j ≡ (if elem j l then woken k j else k.state j)
sweep_list-woken k [] j = refl
sweep_list-woken k (i ∷ l) j =
    ground (arith, sweep_list-woken (check_hibernate k i) l j, check-woken k i j, woken-check k i j)

woken-idle : (k : Kernel) (i : ℕ) → is_live k i ≡ false → woken k i ≡ k.state i
woken-idle k i h = ground arith

-- On a ring whose `next_task` is live, the sweep ends within one round for each task slot. After it
-- every slot is in the state `woken`: a hibernating task is asleep exactly if the difference of its
-- two operands has reached its value (`HIBERNATE_G` from below, `HIBERNATE_L` from above), and every
-- other task is as it was. Priorities, levels, jump list, current and next task are kept.
pub sweep-woken :
    (n : ℕ) (k : Kernel) (r : List ℕ)
    → n ≤ 120
    → IsRing n k r
    → elem k.next_task (0 ∷ r) ≡ true
    → (k' : Kernel) × (sweep n k (u8 k.next_task) ≡ some k')
      × Keeps k k'
      × ((i : ℕ) → i < n → k'.state i ≡ woken k i)
sweep-woken n k r s v h =
    let x = k.next_task in
    let l : List ℕ = x ∷ others x (0 ∷ r) in
    let t : Tour n k r x = IsRing-Tour n k r x s v h in
    let small : u8 x ≡ x = omega (arith, elem-Below n x (0 ∷ r) v.below h) in
    (
      sweep_list k l,
      rw small (sweep-Walk n k.jmp_list k x x (others x (0 ∷ r)) refl refl t.walk t.once t.short),
      sweep_list-Keeps k l,
      λ i hi.
          ground
            (arith, sweep_list-woken k l i, v.live i hi, woken-idle k i, elem_tour x (0 ∷ r) i h),
    )
