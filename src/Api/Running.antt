-- ===== src/Api/Running.antt =====
-- The guard that the functions of src/task.c share: a task object that a slot holds is refused.
use skibios.Prelude.{ℕ, ◌<◌, ◌≡◌, true, arith, ◌==◌, dec_lt}
use skibios.Prelude.Loops.{find_first_before}
use skibios.Config.{Config}
use skibios.Error.{error_process_already_running}
use skibios.Kvar.{Kernel}
use skibios.Api.{direct, find_object, is_running, task_init, task_start, task_start_arg}

is_running_lem :
    (c : Config) (k : Kernel) (i ptr : ℕ)
    → i < c.max_task_count
    → k.task_obj i ≡ ptr
    → is_running c k ptr ≡ true
unfolding find_object
is_running_lem c k i ptr l e = elim (dec_lt (find_object c k ptr) c.max_task_count) [
  | yes h ↦ ground arith
  | no h ↦ absurd (
      ground (
        arith,
        find_first_before c.max_task_count 0 (λ j. k.task_obj j == ptr) i (omega arith)
            (omega arith),
      ))
]

-- While a slot holds the task object, `task_init`, `task_start` and `task_start_arg` all return
-- ERROR_PROCESS_ALREADY_RUNNING and leave the kernel as it is.
pub task_start_running :
    (c : Config) (k : Kernel) (i ptr arg : ℕ)
    → i < c.max_task_count
    → k.task_obj i ≡ ptr
    → (task_init c k ptr ≡ direct k error_process_already_running)
      × (task_start c k ptr ≡ direct k error_process_already_running)
      × (task_start_arg c k ptr arg ≡ direct k error_process_already_running)
unfolding task_init task_start task_start_arg
task_start_running c k i ptr arg l e =
    let r = is_running_lem c k i ptr l e in (ground arith, ground arith, ground arith)
