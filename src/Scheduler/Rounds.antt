-- ===== src/Scheduler/Rounds.antt =====
-- The search for the next task in `scheduler` (src/kernel.c), against its description on the ring.
use skibios.Prelude.{
  ℕ, zero, suc, ◌+◌, ◌≡◌, refl, subst, true, false, ◌&&◌, Option, none, some, List, [], ◌∷◌, arith,
  ◌==◌, if◌then◌else◌, u8, sub8, length,
}
use skibios.Kvar.{Kernel, task_state_sleep}
use skibios.Ring.{elem}
use skibios.Ring.Walk.{Walk, Exact}
use skibios.Scheduler.{Scan, scan_step, is_ready, scan}

-- The first task of the list that sleeps at the level.
unfoldable pub first_ready : Kernel → ℕ → List ℕ → Option ℕ
first_ready k level [] = none
first_ready k level (i ∷ l) =
    if (k.state i == task_state_sleep) && (k.prio_current i == level)
    then some i
    else first_ready k level l

-- What the round that reaches the current task `x` does.
abbrev pub pass_current : ℕ → Kernel → Scan → Option Scan
pass_current fuel k s = if is_ready k s then some s else scan fuel k s

abbrev pub tour_result : ℕ → Kernel → ℕ → ℕ → ℕ → List ℕ → Option Scan
tour_result fuel k x level lptr l = elim (first_ready k level l) [
  | some y ↦ some (record { next = y; level = level; lptr = lptr })
  | none ↦ pass_current fuel k (record {
    next = x;
    level = if k.enable_dws then k.level_stash (sub8 lptr 1) else level;
    lptr = if k.enable_dws then sub8 lptr 1 else lptr;
  })
]

-- A tour of the ring that starts behind the current task.
pub scan-tour :
    (total fuel : ℕ) (k : Kernel) (x i level lptr : ℕ) (l : List ℕ)
    → k.current_task ≡ x
    → ((j : ℕ) → elem j (i ∷ l) ≡ true → Exact k.jmp_list j)
    → Walk k.jmp_list i (i ∷ l) x
    → elem x l ≡ false
    → total ≡ length l + suc fuel
    → scan total k (record { next = i; level = level; lptr = lptr })
      ≡ tour_result fuel k x level lptr l
unfolding scan first_ready scan_step
scan-tour zero fuel k x i level lptr l c e w o t = absurd (omega arith)
scan-tour (suc total) fuel k x i level lptr [] c e w o t =
    let same : total ≡ fuel = omega arith in ground (arith, e i (ground arith))
scan-tour (suc total) fuel k x i level lptr (j ∷ l) c e w o t = ground (
  arith,
  e i (ground arith),
  scan-tour total fuel k x j level lptr l c (λ m h. e m (ground arith))
      (refl, subst (λ y. Walk k.jmp_list (u8 (y + k.jmp_list y)) l x) w.1.0 w.1.1) (ground arith)
      (omega arith),
)
