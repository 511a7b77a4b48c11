-- ===== src/Examples/Running.antt =====
-- The theorems on whole runs, on the small states.
use skibios.Prelude.{
  Option, none, ℕ, ◌≡◌, refl, some, false, [], arith, ◌==◌, if◌then◌else◌, update,
}
use skibios.Prelude.Loops.{for_range}
use skibios.Error.{error_none}
use skibios.Kvar.{Kernel, initial_kernel}
use skibios.Hardware.{mputype}
use skibios.Service.{Frame}
use skibios.Svc
use skibios.Scheduler.{timer_routine}
use skibios.Boot.{vector_table_relocate, arch_setup, kernel_init}
use skibios.Timer.{os_timer_init, os_timer_config}
use skibios.Run.{call}
use skibios.Run.State.{IsCoherent}
use skibios.Run.Startup.Init.{before_tasks, kernel_init-IsCoherent}
use skibios.Examples.{three_slots, three_slots-IsSupported, new_task, two_tasks, call as call_by}

-- A device that has an MPU.
abbrev with_mpu : ℕ → ℕ
with_mpu a = if a == mputype then 8 else 0

with_mpu-lem : (before_tasks three_slots with_mpu (λ a. new_task)).mem mputype ≡ 8
unfolding vector_table_relocate arch_setup os_timer_init os_timer_config for_range
with_mpu-lem = refl

kernel_init-IsCoherent_example :
    (k : Kernel) × (kernel_init three_slots (initial_kernel with_mpu (λ a. new_task))
      ≡ some (k, error_none))
    × IsCoherent 3 k []
kernel_init-IsCoherent_example =
    kernel_init-IsCoherent three_slots with_mpu (λ a. new_task) three_slots-IsSupported
      (omega arith) (omega arith) (λ q. ground (arith, with_mpu-lem))

-- Task 1 calls HAND_OVER, and the timer interrupt comes.
abbrev handing : Frame
handing = call_by two_tasks Svc.hand_over 0 0

abbrev handed : Frame
handed = record handing {
  kernel = record two_tasks {
    state = update two_tasks.state 1 41;
    normal_schedule = false;
    mem = update two_tasks.mem 0xE000ED04 0x4000000;
  };
}

abbrev kernel_or : Kernel → Option Kernel → Kernel
kernel_or k none = k
kernel_or k (some k') = k'

abbrev ticked : Kernel
ticked = kernel_or two_tasks (timer_routine three_slots handed.kernel)
