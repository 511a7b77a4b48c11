-- ===== src/Macros.antt =====
-- The macros of src/arch/arm-m3m4/svc_macros.h, which load the registers and raise the exception that
-- `svc_handler` serves. A register that a macro does not load is 0 here; no service reads it.
use skibios.Prelude.{ℕ, ◌==◌, if◌then◌else◌, u16}
use skibios.Config.{Config}
use skibios.Error.{error_none}
use skibios.Kvar.{Kernel}
use skibios.Service.{Frame, Outcome}
use skibios.Svc
use skibios.Dispatch.{svc_handler}

-- The registers R0 to R3; the macros leave the others as they are.
unfoldable pub registers : ℕ → ℕ → ℕ → ℕ → ℕ → ℕ
registers r0 r1 r2 r3 i =
    if i == 0
    then r0
    else (if i == 1 then r1 else (if i == 2 then r2 else (if i == 3 then r3 else 0)))

unfoldable pub svc_frame : Kernel → ℕ → ℕ → ℕ → ℕ → ℕ → Frame
svc_frame k code r0 r1 r2 r3 = record {
  kernel = k;
  svc_num = code;
  arguments = registers r0 r1 r2 r3;
  error = error_none;
}

unfoldable pub svc : Config → Kernel → ℕ → ℕ → ℕ → ℕ → ℕ → Outcome
unfolding svc_frame registers
svc c k code r0 r1 r2 r3 = svc_handler c (svc_frame k code r0 r1 r2 r3)

-- CREATE_TASK without process argument.
abbrev pub svc_create_task_no_arg : Config → Kernel → ℕ → Outcome
svc_create_task_no_arg c k task_obj = svc c k Svc.create_task task_obj 0 0 0

-- CREATE_TASK with process argument.
abbrev pub svc_create_task_with_arg : Config → Kernel → ℕ → ℕ → Outcome
svc_create_task_with_arg c k task_obj proc_arg = svc c k Svc.create_task task_obj proc_arg 0 0

-- KILL_TASK for direct process kill.
abbrev pub svc_kill_task_direct : Config → Kernel → ℕ → Outcome
svc_kill_task_direct c k task_id = svc c k Svc.kill_task task_id 0 0 0

-- KILL_TASK to resolve end of process.
abbrev pub svc_kill_task_resolve_end : Config → Kernel → ℕ → Outcome
svc_kill_task_resolve_end c k task_id = svc c k Svc.kill_task task_id 1 0 0

abbrev pub svc_int_enable : Config → Kernel → ℕ → Outcome
svc_int_enable c k interrupt = svc c k Svc.int_enable interrupt 0 0 0

abbrev pub svc_int_disable : Config → Kernel → ℕ → Outcome
svc_int_disable c k interrupt = svc c k Svc.int_disable interrupt 0 0 0

abbrev pub svc_int_register : Config → Kernel → ℕ → ℕ → Outcome
svc_int_register c k interrupt handler = svc c k Svc.int_register interrupt handler 0 0

abbrev pub svc_set_priority : Config → Kernel → ℕ → ℕ → Outcome
svc_set_priority c k interrupt priority = svc c k Svc.set_priority interrupt priority 0 0

abbrev pub svc_invoke_base : Config → Kernel → ℕ → Outcome
svc_invoke_base c k argument = svc c k Svc.invoke_base argument 0 0 0

abbrev pub svc_release_base : Config → Kernel → ℕ → Outcome
svc_release_base c k error = svc c k Svc.release_base error 0 0 0

-- The permission is loaded as a half-word.
abbrev pub svc_grant_permission : Config → Kernel → ℕ → ℕ → Outcome
svc_grant_permission c k task_id permission =
    svc c k Svc.grant_permission task_id (u16 permission) 0 0

-- The frequency goes into R1; R0 holds what the compiler left there.
abbrev pub svc_cpu_freq_update : Config → Kernel → ℕ → ℕ → Outcome
svc_cpu_freq_update c k r0 frequency = svc c k Svc.cpu_freq r0 frequency 0 0

abbrev pub svc_hwreg_write : Config → Kernel → ℕ → ℕ → Outcome
svc_hwreg_write c k address value = svc c k Svc.hwreg_write address value 0 0

abbrev pub svc_hwreg_read : Config → Kernel → ℕ → ℕ → Outcome
svc_hwreg_read c k address value = svc c k Svc.hwreg_read address value 0 0
