-- ===== src/Examples/Calls.antt =====
-- The theorems on whole calls and on the start of the kernel, on the small states.
use skibios.Prelude.{◌&&◌, ◌≡◌, refl, some, ◌==◌, if◌then◌else◌, false, arith, u16, bit_and, update}
use skibios.Error.{error_process_already_running, error_none, error_insufficient_permission}
use skibios.Kvar.{Kernel, initial_kernel}
use skibios.Service.{faults, Frame, returns}
use skibios.Svc
use skibios.Dispatch.{svc_dispatch, find_service, call_service, svc_loop, svc_handler}
use skibios.System.{svc_service_hwreg_write}
use skibios.Task.Promote.{svc_service_priority_promote}
use skibios.Task.Kill.{svc_service_task_kill}
use skibios.Api.Running.{task_start_running}
use skibios.Api.{direct, task_init, task_start, task_start_arg, grant_permission, hwreg_write}
use skibios.Api.Refine.{grant_permission-hwreg_write}
use skibios.Boot.{arch_setup, arch_kernel_init, start_scheduler}
use skibios.Boot.Priority.{arch_kernel_init-arch_setup}
use skibios.Boot.Start.{IsStarted, start_scheduler-IsStarted}
use skibios.Examples.{three_slots, new_task, two_tasks, call}

-- Task 1 calls HAND_OVER.
abbrev handing : Frame
handing = call two_tasks Svc.hand_over 0 0

abbrev handed : Frame
handed = record handing {
  kernel = record two_tasks {
    state = update two_tasks.state 1 41;
    normal_schedule = false;
    mem = update two_tasks.mem 0xE000ED04 0x4000000;
  };
}

-- Calls that nothing checks: a word that is no mutex, an id of no slot, and a register in the kernel's
-- own memory.
stray_promote :
    svc_handler three_slots
      (call (record two_tasks { mem = λ a. 0x640000 }) Svc.priority_promote 700 0)
    ≡ faults
unfolding svc_handler svc_loop call_service find_service svc_dispatch svc_service_priority_promote
stray_promote = refl

stray_kill : svc_handler three_slots (call two_tasks Svc.kill_task 0x640000 0) ≡ faults
unfolding svc_handler svc_loop call_service find_service svc_dispatch svc_service_task_kill
stray_kill = refl

stray_write :
    svc_handler three_slots
      (call (record two_tasks { permissions = λ i. 32 }) Svc.hwreg_write 0x20000010 0)
    ≡ faults
unfolding svc_handler svc_loop call_service find_service svc_dispatch svc_service_hwreg_write
stray_write = refl

abbrev base_runs : Kernel
base_runs = record two_tasks { current_task = 0 }

grant_permission-hwreg_write_example :
    (fr fr' : Frame) × (grant_permission three_slots base_runs 65538 32 ≡ returns fr)
    × (fr.error ≡ error_none)
    × (hwreg_write three_slots (record fr.kernel { current_task = 1 }) 64 5 ≡ (
        if (bit_and (u16 32) 32 == 32) && three_slots.is_kernel_var 64
        then faults
        else returns fr'))
    × (fr'.error
        ≡ (if bit_and (u16 32) 32 == 32 then error_none else error_insufficient_permission))
    × (fr'.kernel.mem
        ≡ (if bit_and (u16 32) 32 == 32 then update two_tasks.mem 64 5 else two_tasks.mem))
grant_permission-hwreg_write_example =
    grant_permission-hwreg_write three_slots base_runs 1 32 64 5 refl (omega arith)
      (λ j h. ground arith)

abbrev zero_kernel : Kernel
zero_kernel = initial_kernel (λ a. 0) (λ a. new_task)

arch_kernel_init-arch_setup_example :
    arch_kernel_init three_slots zero_kernel ≡ some (arch_setup three_slots zero_kernel)
arch_kernel_init-arch_setup_example = arch_kernel_init-arch_setup three_slots zero_kernel refl

start_scheduler-IsStarted_example :
    (fr : Frame) × (start_scheduler three_slots zero_kernel ≡ returns fr)
    × (fr.error ≡ error_none)
    × IsStarted 3 zero_kernel fr.kernel
start_scheduler-IsStarted_example = start_scheduler-IsStarted three_slots zero_kernel refl

task_start_running_example :
    (task_init three_slots two_tasks 400 ≡ direct two_tasks error_process_already_running)
    × (task_start three_slots two_tasks 400 ≡ direct two_tasks error_process_already_running)
    × (task_start_arg three_slots two_tasks 400 3 ≡ direct two_tasks error_process_already_running)
task_start_running_example = task_start_running three_slots two_tasks 1 400 3 (omega arith) refl
