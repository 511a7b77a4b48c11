-- ===== src/Api.antt =====
-- The functions that tasks call: src/task.c, src/permissions.c, src/interrupt.c, src/umpu.c and the end of
-- src/kernel.c, over the macros of src/arch/arm-m3m4/svc_macros.h, which load the arguments and
-- raise the exception that `svc_handler` serves. The result stands in `error`.
pub mod Refine
pub mod Running
pub mod Hibernate
use skibios.Prelude.{
  ℕ, Bool, ◌+◌, ◌*◌, ◌&&◌, ◌==◌, true, false, not, ltb, if◌then◌else◌, update, u8, u16, u32, bit_or,
}
use skibios.Prelude.Loops.{find_first}
use skibios.Config.{Config}
use skibios.Error.{
  error_none, error_process_already_running, error_process_is_idle, error_base_process,
  error_insufficient_permission, error_no_invocation,
}
use skibios.Kvar.{Kernel, Task}
use skibios.Service.{Frame, Outcome, returns, resets, faults, hangs}
use skibios.Svc
use skibios.Macros.{
  svc, svc_create_task_no_arg, svc_create_task_with_arg, svc_kill_task_direct,
  svc_kill_task_resolve_end, svc_int_enable, svc_int_disable, svc_int_register, svc_set_priority,
  svc_invoke_base, svc_release_base, svc_grant_permission, svc_cpu_freq_update, svc_hwreg_write,
  svc_hwreg_read,
}

-- A return without a service.
unfoldable pub direct : Kernel → ℕ → Outcome
direct k e = returns (record { kernel = k; svc_num = 0; arguments = λ i. 0; error = e })

-- `return e;` after a service whose own result is not asked for.
unfoldable pub then_return : ℕ → Outcome → Outcome
then_return e (returns fr) = returns (record fr { error = e })
then_return e other = other

-- The first slot that holds the object, or the number of slots.
unfoldable pub find_object : Config → Kernel → ℕ → ℕ
find_object c k ptr = find_first c.max_task_count 0 (λ i. k.task_obj i == ptr)

abbrev pub is_running : Config → Kernel → ℕ → Bool
is_running c k ptr = ltb (find_object c k ptr) c.max_task_count

unfoldable pub task_init : Config → Kernel → ℕ → Outcome
unfolding direct find_object
task_init c k ptr =
    if is_running c k ptr
    then direct k error_process_already_running
    else direct
        (record k {
          objs = update k.objs ptr (record (k.objs ptr) {
            priority = 1;
            task_id = 0;
            hibernate = 0;
            op1 = 0;
            op2 = 0;
            value = 0;
          });
        })
        error_none

unfoldable pub task_start : Config → Kernel → ℕ → Outcome
unfolding direct find_object then_return svc
task_start c k ptr =
    if is_running c k ptr
    then direct k error_process_already_running
    else then_return error_none (svc_create_task_no_arg c k ptr)

unfoldable pub task_start_arg : Config → Kernel → ℕ → ℕ → Outcome
unfolding direct find_object then_return svc
task_start_arg c k ptr arg =
    if is_running c k ptr
    then direct k error_process_already_running
    else then_return error_none (svc_create_task_with_arg c k ptr arg)

-- When no slot holds the object, the loop leaves the index at MAX_TASK_COUNT, and the test reads the
-- word behind `task_obj`.
unfoldable pub task_kill : Config → Kernel → ℕ → Outcome
unfolding direct find_object then_return svc
task_kill c k ptr =
    let i = find_object c k ptr in
    if k.task_obj i == ptr
    then then_return error_none (svc_kill_task_direct c k (k.task_id i))
    else direct k error_process_is_idle

-- The call up to the exception; when the task runs again it returns `hib_value[current_task]`.
unfoldable pub base_run : Config → Kernel → ℕ → Outcome
unfolding direct svc
base_run c k args =
    if k.current_task == 0 then direct k error_base_process else svc_invoke_base c k args

unfoldable pub base_run_result : Kernel → ℕ → ℕ
base_run_result k error = if error == error_none then k.hib_value k.current_task else error

-- `LDR` of a `uint8_t`: the byte, and the three bytes that lie above it on the stack.
unfoldable pub loaded_word : ℕ → ℕ → ℕ
loaded_word byte above = u32 (u8 byte + above * 256)

-- SVC_RELEASE_BASE loads and stores a word at the `uint8_t` `error`, so `above` goes to the service too
-- (0 where the macro is a call, as in src/arch/ossim); the bytes that the store overwrites are no
-- part of the state.
unfoldable pub base_release : Config → Kernel → ℕ → ℕ → Outcome
unfolding direct svc
base_release c k error above =
    if k.current_task == 0
    then svc_release_base c k (loaded_word error above)
    else direct k error_insufficient_permission

-- `*pid` and `*args` are written only when there is an invocation.
unfoldable pub get_invocation_args : Kernel → ℕ → ℕ → Outcome
unfolding direct
get_invocation_args k pid args =
    if k.current_task == 0
    then (if k.invocated_task == 0
        then direct k error_no_invocation
        else direct
            (record k { mem = update (update k.mem pid k.invocated_task) args k.invocated_args })
            error_none)
    else direct k error_insufficient_permission

unfoldable pub grant_permission : Config → Kernel → ℕ → ℕ → Outcome
unfolding direct svc
grant_permission c k pid permission =
    if k.current_task == 0
    then svc_grant_permission c k pid (u16 permission)
    else direct k error_insufficient_permission

unfoldable pub interrupt_enable : Config → Kernel → ℕ → Outcome
unfolding svc
interrupt_enable c k interrupt = svc_int_enable c k interrupt

unfoldable pub interrupt_disable : Config → Kernel → ℕ → Outcome
unfolding svc
interrupt_disable c k interrupt = svc_int_disable c k interrupt

unfoldable pub interrupt_register : Config → Kernel → ℕ → ℕ → Outcome
unfolding svc
interrupt_register c k interrupt handler = svc_int_register c k interrupt handler

unfoldable pub interrupt_set_priority : Config → Kernel → ℕ → ℕ → Outcome
unfolding svc
interrupt_set_priority c k interrupt priority = svc_set_priority c k interrupt (u8 priority)

unfoldable pub hwreg_write : Config → Kernel → ℕ → ℕ → Outcome
unfolding svc
hwreg_write c k address value = svc_hwreg_write c k address value

unfoldable pub hwreg_read : Config → Kernel → ℕ → ℕ → Outcome
unfolding svc
hwreg_read c k address value = svc_hwreg_read c k address value

-- `r0` is what R0 holds.
unfoldable pub cpu_freq_update : Config → Kernel → ℕ → ℕ → Outcome
unfolding svc
cpu_freq_update c k r0 frequency = svc_cpu_freq_update c k r0 frequency

unfoldable pub device_reset : Config → Kernel → Outcome
unfolding direct then_return svc
device_reset c k =
    if k.current_task == 0
    then then_return error_none (svc c k Svc.device_reset 0 0 0 0)
    else direct k error_insufficient_permission

-- The return address of every task: the task kills itself.
unfoldable pub resolve_end : Config → Kernel → Outcome
unfolding svc
resolve_end c k = svc_kill_task_resolve_end c k (k.task_id k.current_task)
