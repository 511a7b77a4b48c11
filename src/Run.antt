-- ===== src/Run.antt =====
-- The kernel as a whole: the steps that a running system makes, one after the other. A task runs only
-- while no reschedule is pending (`normal_schedule`), since the timer interrupt that a service
-- requests comes before the return to the task. The requests that the API leaves to the caller are
-- conditions of the steps: a task object is no null pointer and does not start in hibernation, and a
-- task ends itself by its return, not by `task_kill`. The word behind `task_obj`, which `task_kill` reads
-- for an object that no slot holds, is not the object.
pub mod Quiet
pub mod Calls
pub mod State
pub mod Tick
pub mod Kill
pub mod Ends
pub mod Exit
pub mod Create
pub mod Starts
pub mod Moves
pub mod Safety
pub mod Startup
use skibios.Prelude.{ℕ, ◌<◌, ◌≡◌, ◌≢◌, true, false, some}
use skibios.Config.{Config}
use skibios.Kvar.{Kernel, Task}
use skibios.Service.{Frame, returns}
use skibios.Svc.{create_task, kill_task}
use skibios.Dispatch.{svc_handler}
use skibios.Task.Create.{has_hibernate_bit}
use skibios.Api.{task_start_arg, task_kill, resolve_end}
use skibios.Scheduler.{timer_routine}

-- The code of a service that neither creates nor kills a task.
abbrev pub IsPlain : ℕ → Type 0
IsPlain code = (code ≢ create_task) × (code ≢ kill_task)

pub data Step (c : Config) : Kernel → Kernel → Type 0 where
  -- A task, a device or the clock writes to memory that is not the kernel's.
  write :
      (k : Kernel) (mem : ℕ → ℕ) (objs : ℕ → Task) → Step c k (record k { mem = mem; objs = objs })
  call :
      (fr fr' : Frame)
      → fr.kernel.normal_schedule ≡ true
      → IsPlain fr.svc_num
      → svc_handler c fr ≡ returns fr'
      → Step c fr.kernel fr'.kernel
  -- `task_start` is the case of the argument 0. The ids of tasks count up to 65535.
  start :
      (k : Kernel) (ptr arg : ℕ) (fr : Frame)
      → k.normal_schedule ≡ true
      → ptr ≢ 0
      → has_hibernate_bit (k.objs ptr).hibernate ≡ false
      → k.total_task_count < 65535
      → task_start_arg c k ptr arg ≡ returns fr
      → Step c k fr.kernel
  kill :
      (k : Kernel) (ptr : ℕ) (fr : Frame)
      → k.normal_schedule ≡ true
      → ptr ≢ 0
      → ptr ≢ k.task_obj 0
      → ptr ≢ k.task_obj k.current_task
      → ptr ≢ k.task_obj c.max_task_count
      → task_kill c k ptr ≡ returns fr
      → Step c k fr.kernel
  exit :
      (k : Kernel) (fr : Frame)
      → k.normal_schedule ≡ true
      → k.current_task ≢ 0
      → resolve_end c k ≡ returns fr
      → Step c k fr.kernel
  tick : (k k' : Kernel) → timer_routine c k ≡ some k' → Step c k k'

pub data Reach (c : Config) (k : Kernel) : Kernel → Type 0 where
  here : Reach c k k
  next : {m k' : Kernel} → Reach c k m → Step c m k' → Reach c k k'
