-- ===== src/Api/Refine.antt =====
-- What the functions of the API (src/task.c, src/permissions.c, src/kernel.c) do through the whole
-- path of a service call: the macro, `svc_handler`, the table and the service.
use skibios.Prelude.{
  ◌&&◌, ◌∙◌, ℕ, ◌<◌, ◌≡◌, ◌≢◌, refl, arith, ◌==◌, bit_and, u16, update, if◌then◌else◌,
}
use skibios.Prelude.Loops.{find_first_unique}
use skibios.Config.{Config}
use skibios.Error.{error_none, error_insufficient_permission}
use skibios.Kvar.{Kernel}
use skibios.Service.{faults, Frame, returns}
use skibios.Svc
use skibios.Dispatch.{svc_dispatch, find_service, call_service, svc_loop, svc_handler}
use skibios.Permission.{find_task, svc_service_grant_permission}
use skibios.Permission.{has_permission, permission_hwreg}
use skibios.Hardware.{write_reg}
use skibios.System.{svc_service_hwreg_write}
use skibios.Macros.{registers, svc_frame, svc}
use skibios.Api.{grant_permission, hwreg_write}

-- The write of a register, through the whole path.
abbrev written : Kernel → ℕ → ℕ → Kernel × ℕ
written k address value =
    if has_permission k permission_hwreg
    then (write_reg address value k, error_none)
    else (k, error_insufficient_permission)

hwreg_write_lem :
    (c : Config) (k : Kernel) (address value : ℕ)
    → hwreg_write c k address value ≡ (
        if has_permission k permission_hwreg && c.is_kernel_var address
        then faults
        else returns (record (svc_frame k Svc.hwreg_write address value 0 0) {
          kernel = (written k address value).0;
          error = (written k address value).1;
        }))
unfolding hwreg_write svc svc_frame registers svc_handler svc_loop call_service find_service
    svc_dispatch svc_service_hwreg_write
hwreg_write_lem c k address value = ground arith

pub grant_permission_lem :
    (c : Config) (k : Kernel) (i pid permission : ℕ)
    → k.current_task ≡ 0
    → find_task c k pid ≡ i
    → i < c.max_task_count
    → grant_permission c k pid permission
      ≡ returns (record (svc_frame k Svc.grant_permission pid (u16 permission) 0 0) {
        kernel = record k { permissions = update k.permissions i (u16 permission) };
        error = error_none;
      })
unfolding grant_permission svc svc_frame registers svc_handler svc_loop call_service find_service
    svc_dispatch svc_service_grant_permission
grant_permission_lem c k i pid permission h e l = ground arith

-- The base task grants a permission word to the task in slot `i`, whose id no slot before it has. The
-- call returns without an error. When the task then writes a register, the write is made exactly if
-- the word has the bit PERMISSION_HWREG, and is refused otherwise; a write that is made to a variable
-- of the kernel leaves the model by `faults`.
pub grant_permission-hwreg_write :
    (c : Config) (k : Kernel) (i permission address value : ℕ)
    → k.current_task ≡ 0
    → i < c.max_task_count
    → ((j : ℕ) → j < i → k.task_id j ≢ k.task_id i)
    → (fr fr' : Frame) × (grant_permission c k (k.task_id i) permission ≡ returns fr)
      × (fr.error ≡ error_none)
      × (hwreg_write c (record fr.kernel { current_task = i }) address value ≡ (
          if (bit_and (u16 permission) 32 == 32) && c.is_kernel_var address
          then faults
          else returns fr'))
      × (fr'.error ≡ (
          if bit_and (u16 permission) 32 == 32 then error_none else error_insufficient_permission))
      × (fr'.kernel.mem
          ≡ (if bit_and (u16 permission) 32 == 32 then update k.mem address value else k.mem))
unfolding find_task
grant_permission-hwreg_write c k i permission address value h l u =
    let found : find_task c k (k.task_id i) ≡ i =
      find_first_unique c.max_task_count 0 (λ j. k.task_id j == k.task_id i) i (omega arith)
        (omega arith) (ground arith) (λ m a b. ground (arith, u m b)) in
    let k' = record k { permissions = update k.permissions i (u16 permission); current_task = i } in
    (
      _,
      record (svc_frame k' Svc.hwreg_write address value 0 0) {
        kernel = (written k' address value).0;
        error = (written k' address value).1;
      },
      grant_permission_lem c k i (k.task_id i) permission h found l,
      refl,
      hwreg_write_lem c k' address value ∙ ground arith,
      ground arith,
      ground arith,
    )
