-- ===== src/Permission.antt =====
-- Software-defined security: the services of src/service/svr_permissions.c and the permission bits of
-- src/api/permissions.h.
use skibios.Prelude.{ℕ, ◌^◌, Bool, ◌==◌, ltb, if◌then◌else◌, update, u16, bit_and}
use skibios.Prelude.Loops.{find_first}
use skibios.Config.{Config}
use skibios.Error.{
  error_none, error_base_process, error_insufficient_permission, error_unknown_process_id,
}
use skibios.Kvar.{Kernel}
use skibios.Service.{Frame, Outcome, returns, reply}
use skibios.Svc.{priority_promote, priority_demote}

abbrev pub permission_hwreg : ℕ
permission_hwreg = 5

abbrev pub permission_intctrl : ℕ
permission_intctrl = 6

-- `(permissions[current_task] & (1 << bit)) != (1 << bit)` is the refusal.
abbrev pub has_permission : Kernel → ℕ → Bool
has_permission k bit = bit_and (k.permissions k.current_task) (2 ^ bit) == 2 ^ bit

-- The first slot with the task id, or the number of slots.
unfoldable pub find_task : Config → Kernel → ℕ → ℕ
find_task c k pid = find_first c.max_task_count 0 (λ i. k.task_id i == pid)

unfoldable pub svc_service_invoke_base : Config → Frame → Outcome
svc_service_invoke_base c fr =
    let k = fr.kernel in
    if k.current_task == 0
    then reply fr k error_base_process
    else returns (record fr {
      kernel = record k {
        invocated_task = k.task_id k.current_task;
        invocated_args = fr.arguments 0;
      };
      arguments = update fr.arguments 0 c.base_mutex_addr;
      svc_num = priority_promote;
      error = error_none;
    })

unfoldable pub svc_service_release_base : Config → Frame → Outcome
svc_service_release_base c fr =
    let k = fr.kernel in
    let i = find_task c k k.invocated_task in
    if k.current_task == 0
    then (if ltb i c.max_task_count
        then returns (record fr {
          kernel = record k {
            hib_value = update k.hib_value i (fr.arguments 0);
            invocated_task = 0;
            invocated_args = 0;
          };
          svc_num = priority_demote;
          error = error_none;
        })
        else reply fr k error_unknown_process_id)
    else reply fr k error_insufficient_permission

-- `permissions` is an array of `uint16_t`.
unfoldable pub svc_service_grant_permission : Config → Frame → Outcome
svc_service_grant_permission c fr =
    let k = fr.kernel in
    let i = find_task c k (fr.arguments 0) in
    if k.current_task == 0
    then (if ltb i c.max_task_count
        then reply fr (record k { permissions = update k.permissions i (u16 (fr.arguments 1)) })
            error_none
        else reply fr k error_unknown_process_id)
    else reply fr k error_insufficient_permission
