-- ===== src/System.antt =====
-- The services that src/kernel.c itself defines.
use skibios.Prelude.{◌-◌, true, false, if◌then◌else◌, update}
use skibios.Prelude.Loops.{for_range}
use skibios.Config.{Config}
use skibios.Error.{error_none, error_insufficient_permission}
use skibios.Kvar.{task_state_sleep}
use skibios.Hardware.{trigger_scheduler, trigger_device_reset, write_reg}
use skibios.Permission.{has_permission, permission_hwreg}
use skibios.Svc.{hand_over}
use skibios.Timer.{os_timer_config}
use skibios.Service.{Frame, Outcome, returns, resets, faults, reply}

unfoldable pub svc_service_hand_over : Frame → Outcome
svc_service_hand_over fr =
    let k = fr.kernel in
    let k1 =
      (if k.self_kill
        then record k { self_kill = false }
        else record k { state = update k.state k.current_task task_state_sleep }) in
    reply fr (trigger_scheduler (record k1 { normal_schedule = false })) error_none

-- `btask_psp_correction` moves the processor's stack pointer, which is no part of the state.
unfoldable pub svc_service_start_scheduler : Config → Frame → Outcome
svc_service_start_scheduler c fr =
    let k = fr.kernel in
    let rest =
      for_range (c.max_task_count - 1) 1 (λ i p. update p i 0) (update k.permissions 0 0xFFFF) in
    returns (record fr {
      kernel = record k {
        maxp_level = 127;
        permissions = rest;
        first_start = true;
        self_kill = false;
      };
      svc_num = hand_over;
      error = error_none;
    })

unfoldable pub svc_service_cpu_freq_update : Config → Frame → Outcome
svc_service_cpu_freq_update c fr =
    let (k', error) = os_timer_config c fr.kernel (fr.arguments 0) in reply fr k' error

-- The address is not checked, so it may be a variable of the kernel.
unfoldable pub svc_service_hwreg_write : Config → Frame → Outcome
svc_service_hwreg_write c fr =
    if has_permission fr.kernel permission_hwreg
    then (if c.is_kernel_var (fr.arguments 0)
        then faults
        else reply fr (write_reg (fr.arguments 0) (fr.arguments 1) fr.kernel) error_none)
    else reply fr fr.kernel error_insufficient_permission

unfoldable pub svc_service_hwreg_read : Config → Frame → Outcome
svc_service_hwreg_read c fr =
    if has_permission fr.kernel permission_hwreg
    then (if c.is_kernel_var (fr.arguments 1)
        then faults
        else reply fr (write_reg (fr.arguments 1) (fr.kernel.mem (fr.arguments 0)) fr.kernel)
            error_none)
    else reply fr fr.kernel error_insufficient_permission

-- No code runs after the reset.
unfoldable pub svc_service_device_reset : Frame → Outcome
svc_service_device_reset fr = resets (trigger_device_reset fr.kernel)
