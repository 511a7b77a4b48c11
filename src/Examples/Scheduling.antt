-- ===== src/Examples/Scheduling.antt =====
-- The theorems on the scheduler and on the ring, on the small states.
use skibios.Prelude.{ℕ, ◌≡◌, ◌<◌, refl, true, some, [], ◌∷◌, arith, u8}
use skibios.Kvar.{Kernel, task_state_active}
use skibios.Ring.{elem}
use skibios.Scheduler.{sweep, scheduler, timer_routine, retire_current}
use skibios.Scheduler.Sweep.{Keeps, woken, sweep-woken}
use skibios.Scheduler.Steady.{IsSteady, IsChoice}
use skibios.Scheduler.Total.{scheduler-IsChoice}
use skibios.Scheduler.Active.{IsAlone, timer_routine-IsAlone}
use skibios.Hardware.{disable_scheduler}
use skibios.Examples.{three_slots, three_slots-IsSupported, two_tasks, two_tasks-IsRing}

two_tasks-IsSteady : IsSteady 3 two_tasks (1 ∷ [])
unfolding retire_current disable_scheduler
two_tasks-IsSteady = record {
  ring = two_tasks-IsRing;
  stash = record {
    base = refl;
    two = omega arith;
    fits = omega arith;
    top = refl;
    sorted = λ p q h l. ground arith;
    covers = λ y h. (y, ground arith, ground arith);
  };
  dws = refl;
  switched = refl;
  alive = refl;
  base_sleeps = refl;
  base_level = refl;
}

two_tasks-IsAlone : IsAlone 3 two_tasks
two_tasks-IsAlone = record { alone = λ i h e. ground arith }

scheduler-IsChoice_example :
    (k' : Kernel) × (scheduler three_slots two_tasks ≡ some k') × IsChoice 3 two_tasks (1 ∷ []) k'
scheduler-IsChoice_example =
    scheduler-IsChoice three_slots two_tasks (1 ∷ []) three_slots-IsSupported two_tasks-IsSteady

timer_routine-IsAlone_example :
    (k' : Kernel) × (timer_routine three_slots two_tasks ≡ some k')
    × (elem k'.current_task (0 ∷ 1 ∷ []) ≡ true)
    × (k'.state k'.current_task ≡ task_state_active)
    × (k'.next_task ≡ k'.current_task)
    × IsAlone 3 k'
timer_routine-IsAlone_example =
    timer_routine-IsAlone three_slots two_tasks (1 ∷ []) three_slots-IsSupported two_tasks-IsSteady
      refl two_tasks-IsAlone

sweep-woken_example :
    (k' : Kernel) × (sweep 3 two_tasks (u8 two_tasks.next_task) ≡ some k')
    × Keeps two_tasks k'
    × ((i : ℕ) → i < 3 → k'.state i ≡ woken two_tasks i)
sweep-woken_example = sweep-woken 3 two_tasks (1 ∷ []) (omega arith) two_tasks-IsRing refl
