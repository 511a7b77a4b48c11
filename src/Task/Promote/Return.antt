-- ===== src/Task/Promote/Return.antt =====
-- A promotion and the demotion that ends it (`svc_service_priority_promote` and
-- `svc_service_priority_demote` of src/service/svr_task.c), one after the other.
use skibios.Prelude.{ℕ, ◌<◌, ◌≡◌, ◌≢◌, arith, ◌==◌, ◌&&◌, if◌then◌else◌}
use skibios.Prelude.Loops.{find_first_unique}
use skibios.Config.{Config}
use skibios.Kvar.{Kernel, task_state_sleep, task_state_hold}
use skibios.Hardware.{trigger_scheduler}
use skibios.Svc.{hand_over}
use skibios.Error.{error_none}
use skibios.Service.{Frame, Outcome, returns}
use skibios.Task.Promote.{
  enter_promotion, mutex_owner, promote_owner, svc_service_priority_promote, leave_promotion,
  find_holder, demote_current, release_holder, svc_service_priority_demote,
}

-- The task that runs asks for the mutex; then its owner runs and gives the mutex back.
unfoldable pub lend : Config → Frame → Outcome
lend c fr = elim (svc_service_priority_promote c fr) [
  | returns fr' ↦ svc_service_priority_demote c (record fr' {
    kernel = record fr'.kernel { current_task = mutex_owner fr.kernel (fr.arguments 0) };
  })
  | other ↦ other
]

-- The levels and their counts are as before, and the task that has asked for the mutex is ready.
pub record IsReturned (k k' : Kernel) : Type 0 where
  pub max_level : k'.max_level ≡ k.max_level
  pub maxp_level : k'.maxp_level ≡ 127
  pub alc : k'.alc ≡ k.alc
  pub hlc : k'.hlc ≡ k.hlc
  pub prio_current : (i : ℕ) → k'.prio_current i ≡ k.prio_current i
  pub state : (i : ℕ) → k'.state i ≡ (if i == k.current_task then task_state_sleep else k.state i)

-- The owner of the mutex is promoted and demoted again: where no promotion was in force, no other task
-- waits for this mutex, the owner names a slot and is not the task that asks for it, both services return, every
-- level and count is as before, and the task that asked is asleep, ready to be chosen.
pub lend-IsReturned :
    (c : Config) (fr : Frame)
    → fr.kernel.maxp_level ≡ 127
    → fr.kernel.current_task < c.max_task_count
    → mutex_owner fr.kernel (fr.arguments 0) < c.max_task_count
    → mutex_owner fr.kernel (fr.arguments 0) ≢ fr.kernel.current_task
    → ((i : ℕ)
        → i < c.max_task_count
        → (fr.kernel.state i ≡ task_state_hold) × (fr.kernel.op1 i ≡ fr.arguments 0)
        → i ≡ fr.kernel.current_task)
    → (fr' : Frame) × (lend c fr ≡ returns fr') × IsReturned fr.kernel fr'.kernel
unfolding lend svc_service_priority_promote svc_service_priority_demote trigger_scheduler
    release_holder leave_promotion demote_current promote_owner enter_promotion find_holder
lend-IsReturned c fr h1 h2 h5 h3 h4 =
    let k = fr.kernel in
    let first =
      find_first_unique c.max_task_count 0
        (λ i.
          ((if i == k.current_task then task_state_hold else k.state i) == task_state_hold)
          && ((if i == k.current_task then fr.arguments 0 else k.op1 i) == fr.arguments 0))
        k.current_task (omega arith) (omega arith) (ground arith) (λ i l m. ground (arith, h4 i)) in
    (
      record fr {
        kernel = release_holder c (
            leave_promotion (
              demote_current
                (record (trigger_scheduler (promote_owner (enter_promotion k) (fr.arguments 0))) {
                  current_task = mutex_owner k (fr.arguments 0);
                })));
        svc_num = hand_over;
        error = error_none;
      },
      ground (arith, h5),
      record {
        max_level = ground (arith, first);
        maxp_level = ground (arith, first);
        alc = ground (arith, first);
        hlc = ground (arith, first);
        prio_current = λ i. ground (arith, first);
        state = λ i. ground (arith, first);
      },
    )
