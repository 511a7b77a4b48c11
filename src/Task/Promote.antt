-- ===== src/Task/Promote.antt =====
-- `svc_service_priority_promote` and `svc_service_priority_demote` of src/service/svr_task.c: a task
-- that waits for a mutex lends its place at the top to the task that holds it.
pub mod Return
use skibios.Prelude.{ℕ, ◌+◌, ◌/◌, ◌==◌, ◌&&◌, ltb, false, if◌then◌else◌, update, u8, sub8}
use skibios.Prelude.Loops.{find_first}
use skibios.Config.{Config}
use skibios.Error.{error_none}
use skibios.Kvar.{Kernel, task_state_sleep, task_state_hold}
use skibios.Hardware.{trigger_scheduler}
use skibios.Service.{Frame, Outcome, returns, faults, reply}
use skibios.Svc.{hand_over}

-- The first promotion saves the ordinary level and its counts.
unfoldable pub enter_promotion : Kernel → Kernel
enter_promotion k =
    if k.maxp_level == 127
    then record k {
      maxp_level = k.max_level;
      max_level = 127;
      alcp = k.alc;
      hlcp = k.hlc;
      alc = 1;
      hlc = 0;
    }
    else k

-- `index = *((uint32_t*)mutex_address) >> 16`
abbrev pub mutex_owner : Kernel → ℕ → ℕ
mutex_owner k mutex = k.mem mutex / 65536

-- An index that is no slot lies behind the arrays; the service then faults.
unfoldable pub promote_owner : Kernel → ℕ → Kernel
promote_owner k mutex =
    let index = mutex_owner k mutex in
    let level = u8 (k.max_level + 1) in
    record k {
      max_level = level;
      mutex_stash = update k.mutex_stash index mutex;
      prio_stashed = update k.prio_stashed index (k.prio_current index);
      prio_current = update k.prio_current index level;
      state = update k.state k.current_task task_state_hold;
      op1 = update k.op1 k.current_task mutex;
      normal_schedule = false;
    }

-- The index is not checked: an owner that names no slot makes `promote_owner` write behind its arrays.
unfoldable pub svc_service_priority_promote : Config → Frame → Outcome
svc_service_priority_promote c fr =
    if ltb (mutex_owner fr.kernel (fr.arguments 0)) c.max_task_count
    then reply fr (trigger_scheduler (promote_owner (enter_promotion fr.kernel) (fr.arguments 0)))
        error_none
    else faults

-- The last demotion restores the ordinary level and its counts.
unfoldable pub leave_promotion : Kernel → Kernel
leave_promotion k =
    if k.max_level == 127
    then record k { max_level = k.maxp_level; maxp_level = 127; alc = k.alcp; hlc = k.hlcp }
    else k

-- The first task that is on hold for the mutex, or the number of slots.
unfoldable pub find_holder : Config → Kernel → ℕ → ℕ
find_holder c k mutex =
    find_first c.max_task_count 0 (λ i. (k.state i == task_state_hold) && (k.op1 i == mutex))

unfoldable pub demote_current : Kernel → Kernel
demote_current k =
    let x = k.current_task in
    record k {
      prio_current = update k.prio_current x (k.prio_stashed x);
      prio_stashed = update k.prio_stashed x 0;
      max_level = sub8 k.max_level 1;
    }

-- "for(i = 0; …)", and the reset of `mutex_stash`
unfoldable pub release_holder : Config → Kernel → Kernel
release_holder c k =
    let x = k.current_task in
    let i = find_holder c k (k.mutex_stash x) in
    record k {
      state = if ltb i c.max_task_count then update k.state i task_state_sleep else k.state;
      mutex_stash = update k.mutex_stash x 0;
    }

unfoldable pub svc_service_priority_demote : Config → Frame → Outcome
svc_service_priority_demote c fr = returns (record fr {
  kernel = release_holder c (leave_promotion (demote_current fr.kernel));
  svc_num = hand_over;
  error = error_none;
})
