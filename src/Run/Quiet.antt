-- ===== src/Run/Quiet.antt =====
-- The services that neither create nor kill a task: what they keep of the ring and of the running task.
use skibios.Prelude.{ℕ, ◌≡◌, ◌≢◌, ◌⊎◌, inl, Bool, true, false, arith, ◌==◌, sym, ap, ◌∙◌, not, ◌&&◌}
use skibios.Prelude.Loops.{find_first_hit}
use skibios.Config.{Config}
use skibios.Kvar.{Kernel, task_state_active, task_state_idle, task_state_hold}
use skibios.Hardware.{trigger_scheduler}
use skibios.Svc.{hand_over, priority_promote, priority_demote}
use skibios.Service.{Frame, Outcome, returns}
use skibios.Ring.{is_live}
use skibios.Timer.{os_timer_config}
use skibios.System.{
  svc_service_hand_over, svc_service_start_scheduler, svc_service_cpu_freq_update,
  svc_service_hwreg_write, svc_service_hwreg_read, svc_service_device_reset,
}
use skibios.Permission.{
  svc_service_invoke_base, svc_service_release_base, svc_service_grant_permission,
}
use skibios.Interrupt.{
  arch_interrupt_enable, arch_interrupt_disable, arch_interrupt_priority, arch_interrupt_register,
  svc_service_int_enable, svc_service_int_disable, svc_service_int_set_priority,
  svc_service_int_register,
}
use skibios.Task.Hibernate.{hibernate_current, count_hibernation, svc_service_hibernate}
use skibios.Task.Promote.{
  enter_promotion, promote_owner, leave_promotion, demote_current, find_holder, release_holder,
  svc_service_priority_promote, svc_service_priority_demote,
}

-- What a quiet step keeps, when the running task is live and no kill is under way. No task becomes
-- active, and a task that stops being the running one is not active any more.
pub record IsQuiet (k k' : Kernel) : Type 0 where
  pub jmp_list : k'.jmp_list ≡ k.jmp_list
  pub next_task : k'.next_task ≡ k.next_task
  pub current_task : k'.current_task ≡ k.current_task
  pub task_obj : k'.task_obj ≡ k.task_obj
  pub task_id : k'.task_id ≡ k.task_id
  pub task_count : k'.task_count ≡ k.task_count
  pub total_task_count : k'.total_task_count ≡ k.total_task_count
  pub self_kill : k'.self_kill ≡ false
  pub live : (i : ℕ) → is_live k' i ≡ is_live k i
  pub active : (i : ℕ) → k'.state i ≡ task_state_active → k.state i ≡ task_state_active
  pub retired :
      (k'.normal_schedule ≡ k.normal_schedule)
      ⊎ ((k'.normal_schedule ≡ false) × (k'.state k.current_task ≢ task_state_active))

abbrev pub Follows : ℕ → ℕ → Type 0
Follows code code' =
    (code' ≡ code)
    ⊎ ((code' ≡ hand_over) ⊎ ((code' ≡ priority_promote) ⊎ (code' ≡ priority_demote)))

-- Every return of the service is quiet, and is followed by none but the three services named.
abbrev pub Quiet : (Frame → Outcome) → Type 0
Quiet service =
    (fr fr' : Frame)
    → fr.kernel.self_kill ≡ false
    → is_live fr.kernel fr.kernel.current_task ≡ true
    → service fr ≡ returns fr'
    → Follows fr.svc_num fr'.svc_num × IsQuiet fr.kernel fr'.kernel

-- The services that change no more than memory, permissions and invocation.
pub record IsStill (k k' : Kernel) : Type 0 where
  pub jmp_list : k'.jmp_list ≡ k.jmp_list
  pub next_task : k'.next_task ≡ k.next_task
  pub current_task : k'.current_task ≡ k.current_task
  pub task_obj : k'.task_obj ≡ k.task_obj
  pub task_id : k'.task_id ≡ k.task_id
  pub task_count : k'.task_count ≡ k.task_count
  pub total_task_count : k'.total_task_count ≡ k.total_task_count
  pub self_kill : k'.self_kill ≡ k.self_kill
  pub state : k'.state ≡ k.state
  pub normal_schedule : k'.normal_schedule ≡ k.normal_schedule

pub IsStill-IsQuiet : (k k' : Kernel) → k.self_kill ≡ false → IsStill k k' → IsQuiet k k'
IsStill-IsQuiet k k' h v = record {
  jmp_list = v.jmp_list;
  next_task = v.next_task;
  current_task = v.current_task;
  task_obj = v.task_obj;
  task_id = v.task_id;
  task_count = v.task_count;
  total_task_count = v.total_task_count;
  self_kill = v.self_kill ∙ h;
  live = λ i. ap (λ f. not (f i == task_state_idle)) v.state;
  active = λ i e. sym (ap (λ f. f i) v.state) ∙ e;
  retired = inl v.normal_schedule;
}

pub hand_over-Quiet : Quiet svc_service_hand_over
unfolding svc_service_hand_over trigger_scheduler
hand_over-Quiet fr fr' h l e = (ground arith, ground arith)

pub hibernate-Quiet : Quiet svc_service_hibernate
unfolding svc_service_hibernate hibernate_current count_hibernation trigger_scheduler
hibernate-Quiet fr fr' h l e = (ground arith, ground arith)

pub promote-Quiet : (c : Config) → Quiet (svc_service_priority_promote c)
unfolding svc_service_priority_promote enter_promotion promote_owner trigger_scheduler
promote-Quiet c fr fr' h l e = (ground arith, ground arith)

pub hwreg_write-Quiet : (c : Config) → Quiet (svc_service_hwreg_write c)
unfolding svc_service_hwreg_write
hwreg_write-Quiet c fr fr' h l e =
    (ground arith, IsStill-IsQuiet fr.kernel fr'.kernel h (ground arith))

pub hwreg_read-Quiet : (c : Config) → Quiet (svc_service_hwreg_read c)
unfolding svc_service_hwreg_read
hwreg_read-Quiet c fr fr' h l e =
    (ground arith, IsStill-IsQuiet fr.kernel fr'.kernel h (ground arith))

pub invoke_base-Quiet : (c : Config) → Quiet (svc_service_invoke_base c)
unfolding svc_service_invoke_base
invoke_base-Quiet c fr fr' h l e =
    (ground arith, IsStill-IsQuiet fr.kernel fr'.kernel h (ground arith))

pub release_base-Quiet : (c : Config) → Quiet (svc_service_release_base c)
unfolding svc_service_release_base
release_base-Quiet c fr fr' h l e =
    (ground arith, IsStill-IsQuiet fr.kernel fr'.kernel h (ground arith))

pub grant_permission-Quiet : (c : Config) → Quiet (svc_service_grant_permission c)
unfolding svc_service_grant_permission
grant_permission-Quiet c fr fr' h l e =
    (ground arith, IsStill-IsQuiet fr.kernel fr'.kernel h (ground arith))

pub int_enable-Quiet : Quiet svc_service_int_enable
unfolding svc_service_int_enable arch_interrupt_enable
int_enable-Quiet fr fr' h l e =
    (ground arith, IsStill-IsQuiet fr.kernel fr'.kernel h (ground arith))

pub int_disable-Quiet : Quiet svc_service_int_disable
unfolding svc_service_int_disable arch_interrupt_disable
int_disable-Quiet fr fr' h l e =
    (ground arith, IsStill-IsQuiet fr.kernel fr'.kernel h (ground arith))

pub int_register-Quiet : (c : Config) → Quiet (svc_service_int_register c)
unfolding svc_service_int_register arch_interrupt_register
int_register-Quiet c fr fr' h l e =
    (ground arith, IsStill-IsQuiet fr.kernel fr'.kernel h (ground arith))

pub set_priority-Quiet : Quiet svc_service_int_set_priority
unfolding svc_service_int_set_priority arch_interrupt_priority
set_priority-Quiet fr fr' h l e =
    (ground arith, IsStill-IsQuiet fr.kernel fr'.kernel h (ground arith))

pub cpu_freq-Quiet : (c : Config) → Quiet (svc_service_cpu_freq_update c)
unfolding svc_service_cpu_freq_update os_timer_config
cpu_freq-Quiet c fr fr' h l e =
    (ground arith, IsStill-IsQuiet fr.kernel fr'.kernel h (ground arith))

pub device_reset-Quiet : Quiet svc_service_device_reset
unfolding svc_service_device_reset
device_reset-Quiet fr fr' h l e = absurd (ground arith)

-- The permissions and the flags; the task that runs is not put to sleep here.
pub start_scheduler-Quiet : (c : Config) → Quiet (svc_service_start_scheduler c)
unfolding svc_service_start_scheduler
start_scheduler-Quiet c fr fr' h l e = (ground arith, ground arith)

-- The task that is woken was on hold.
pub demote-Quiet : (c : Config) → Quiet (svc_service_priority_demote c)
unfolding svc_service_priority_demote demote_current leave_promotion release_holder find_holder
demote-Quiet c fr fr' h l e =
    let k = fr.kernel in
    let p : ℕ → Bool =
      λ i. (k.state i == task_state_hold) && (k.op1 i == k.mutex_stash k.current_task) in
    let hit = find_first_hit c.max_task_count 0 p in (ground arith, ground (arith, hit))
