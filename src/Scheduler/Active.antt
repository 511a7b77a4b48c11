-- ===== src/Scheduler/Active.antt =====
-- One task is active at a time, across the timer interrupt: `scheduler` of src/kernel.c, and the
-- context switch it asks for.
use skibios.Prelude.{ℕ, ◌<◌, ◌≡◌, ◌≢◌, refl, true, List, ◌∷◌, some, arith}
use skibios.Config.{Config, IsSupported}
use skibios.Kvar.{Kernel, task_state_active}
use skibios.Hardware.{disable_scheduler}
use skibios.Ring.{elem}
use skibios.Scheduler.{retire_current, context_switch, timer_routine}
use skibios.Scheduler.Sweep.{woken}
use skibios.Scheduler.Steady.{IsSteady, IsChoice, at_sweep}
use skibios.Scheduler.Total.{scheduler-IsChoice}

-- No task is active but the current one, and that one only if no service has retired it.
pub record IsAlone (n : ℕ) (k : Kernel) : Type 0 where
  pub alone :
      (i : ℕ)
      → i < n
      → k.state i ≡ task_state_active
      → (i ≡ k.current_task) × (k.normal_schedule ≡ true)

-- After the head of the scheduler no task is active, and the sweep makes none active.
swept-idle :
    (n : ℕ) (k : Kernel) (i : ℕ) → i < n → IsAlone n k → woken (at_sweep k) i ≢ task_state_active
unfolding retire_current disable_scheduler
swept-idle n k i hi a e = ground (arith, a.alone i hi)

choice-IsAlone :
    (n : ℕ) (k k' : Kernel) (r : List ℕ)
    → IsAlone n k
    → IsChoice n k r k'
    → IsAlone n (context_switch k')
unfolding context_switch
choice-IsAlone n k k' r a v = record {
  alone = λ i hi e. ground (arith, v.rest i hi, swept-idle n k i hi a, v.normal);
}

-- In a steady state after the first start, in which at most the current task is active, and that only if
-- no service has retired it, the timer interrupt ends. Afterwards the current task is a live one and
-- active, it is `next_task`, and it is the only active task.
pub timer_routine-IsAlone :
    (c : Config) (k : Kernel) (r : List ℕ)
    → IsSupported c
    → IsSteady c.max_task_count k r
    → k.first_start ≡ true
    → IsAlone c.max_task_count k
    → (k' : Kernel) × (timer_routine c k ≡ some k')
      × (elem k'.current_task (0 ∷ r) ≡ true)
      × (k'.state k'.current_task ≡ task_state_active)
      × (k'.next_task ≡ k'.current_task)
      × IsAlone c.max_task_count k'
unfolding timer_routine context_switch
timer_routine-IsAlone c k r b v f a =
    let (k', e, w) = scheduler-IsChoice c k r b v in
    (
      context_switch k',
      ground (arith, e),
      w.in_ring,
      w.active,
      refl,
      choice-IsAlone c.max_task_count k k' r a w,
    )
