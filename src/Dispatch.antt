-- ===== src/Dispatch.antt =====
-- The dispatch of a service call: the table of src/svctable.c, and `svc_handler` of
-- src/arch/ossim/svc_handler.c. The loop of src/arch/arm-m3m4/svc_handler.S is the same for every
-- code but 0, which it takes for the end of the table.
pub mod Table
pub mod Owner
pub mod Rows
pub mod Chain
pub mod Security
use skibios.Prelude.{ℕ, zero, suc, Option, none, some, List, [], ◌∷◌, ◌==◌, if◌then◌else◌}
use skibios.Config.{Config}
use skibios.Svc
use skibios.Service.{Frame, Outcome, returns, resets, faults, hangs}
use skibios.System.{
  svc_service_hand_over, svc_service_start_scheduler, svc_service_cpu_freq_update,
  svc_service_hwreg_write, svc_service_hwreg_read, svc_service_device_reset,
}
use skibios.Permission.{
  svc_service_invoke_base, svc_service_release_base, svc_service_grant_permission,
}
use skibios.Interrupt.{
  svc_service_int_enable, svc_service_int_disable, svc_service_int_set_priority,
  svc_service_int_register,
}
use skibios.Task.Create.{svc_service_task_create}
use skibios.Task.Kill.{svc_service_task_kill}
use skibios.Task.Hibernate.{svc_service_hibernate}
use skibios.Task.Promote.{svc_service_priority_promote, svc_service_priority_demote}

-- A row of the table; the null pointer is `none`.
abbrev pub Row : Type 0
Row = ℕ × Option (Frame → Outcome)

unfoldable pub svc_dispatch : Config → List Row
svc_dispatch c =
    (Svc.hand_over, some svc_service_hand_over)
    ∷ (Svc.hibernate, some svc_service_hibernate)
    ∷ (Svc.priority_promote, some (svc_service_priority_promote c))
    ∷ (Svc.priority_demote, some (svc_service_priority_demote c))
    ∷ (Svc.hwreg_write, some (svc_service_hwreg_write c))
    ∷ (Svc.hwreg_read, some (svc_service_hwreg_read c))
    ∷ (Svc.create_task, some (svc_service_task_create c))
    ∷ (Svc.kill_task, some (svc_service_task_kill c))
    ∷ (Svc.invoke_base, some (svc_service_invoke_base c))
    ∷ (Svc.release_base, some (svc_service_release_base c))
    ∷ (Svc.grant_permission, some (svc_service_grant_permission c))
    ∷ (Svc.int_enable, some svc_service_int_enable)
    ∷ (Svc.int_disable, some svc_service_int_disable)
    ∷ (Svc.int_register, some (svc_service_int_register c))
    ∷ (Svc.set_priority, some svc_service_int_set_priority)
    ∷ (Svc.cpu_freq, some (svc_service_cpu_freq_update c))
    ∷ (Svc.start_scheduler, some (svc_service_start_scheduler c))
    ∷ (Svc.device_reset, some svc_service_device_reset)
    ∷ (0, none)
    ∷ []

-- The search through the table; `none` if no row has the code.
unfoldable pub find_service : ℕ → List Row → Option (Option (Frame → Outcome))
find_service code [] = none
find_service code ((row_code, service) ∷ rows) =
    if row_code == code then some service else find_service code rows

-- One round of the loop: the outcome of the service, or none if there is no row.
unfoldable pub call_service : Config → Frame → Option Outcome
call_service c fr = elim (find_service fr.svc_num (svc_dispatch c)) [
  | none ↦ none
  | some none ↦ some faults
  | some (some service) ↦ some (service fr)
]

-- The loop runs until a service leaves its own code in `svc_num`.
unfoldable pub svc_loop : Config → ℕ → Frame → Outcome
svc_loop c zero fr = hangs
svc_loop c (suc fuel) fr = elim (call_service c fr) [
  | none ↦ returns fr
  | some (returns fr') ↦
      let again = svc_loop c fuel fr' in if fr.svc_num == fr'.svc_num then returns fr' else again
  | some other ↦ other
]

-- Three services in a row is the longest chain: RELEASE_BASE, PRIORITY_DEMOTE, HAND_OVER.
unfoldable pub svc_handler : Config → Frame → Outcome
svc_handler c fr = svc_loop c 3 fr
