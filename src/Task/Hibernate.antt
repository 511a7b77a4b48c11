-- ===== src/Task/Hibernate.antt =====
-- `svc_service_hibernate` of src/service/svr_task.c.
use skibios.Prelude.{ℕ, ◌+◌, Bool, ◌==◌, false, if◌then◌else◌, update, u8, sub8, bit_and}
use skibios.Error.{error_none}
use skibios.Kvar.{Kernel, task_state_hibernate_g, task_state_hibernate_l, hibernate_rev_mask}
use skibios.Hardware.{trigger_scheduler}
use skibios.Service.{Frame, Outcome, reply}

abbrev pub is_reverse : ℕ → Bool
is_reverse process_no = bit_and process_no hibernate_rev_mask == hibernate_rev_mask

unfoldable pub hibernate_current : Kernel → Bool → ℕ → ℕ → ℕ → Kernel
hibernate_current k reverse hib_op1 hib_op2 value = record k {
  state =
      update k.state k.current_task
        (if reverse then task_state_hibernate_l else task_state_hibernate_g);
  op1 = update k.op1 k.current_task hib_op1;
  op2 = update k.op2 k.current_task hib_op2;
  hib_value = update k.hib_value k.current_task value;
}

-- The last lines: the counts of the highest level, and the request to reschedule.
unfoldable pub count_hibernation : Kernel → Kernel
count_hibernation k =
    if k.prio_current k.current_task == k.max_level
    then record k { hlc = u8 (k.hlc + 1); alc = sub8 k.alc 1 }
    else k

unfoldable pub svc_service_hibernate : Frame → Outcome
svc_service_hibernate fr =
    let a = fr.arguments in
    let k1 = hibernate_current fr.kernel (is_reverse (a 0)) (a 1) (a 2) (a 3) in
    let k2 = count_hibernation k1 in
    reply fr (trigger_scheduler (record k2 { normal_schedule = false })) error_none
