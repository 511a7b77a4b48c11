-- ===== src/Dispatch/Rows.antt =====
-- What one call of a service, by its row of `svc_dispatch` (src/svctable.c), may do to the code of the
-- next service, to the running task and to the permissions.
use skibios.Prelude.{
  ℕ, ◌-◌, ◌<◌, ◌≡◌, ◌≢◌, ◌⊎◌, inl, inr, ap, arith, ◌==◌, ◌||◌, if◌then◌else◌, update,
}
use skibios.Prelude.Loops.{for_range_inv}
use skibios.Config.{Config}
use skibios.Hardware.{trigger_scheduler}
use skibios.Svc.{hand_over, priority_demote, release_base, invoke_base, kill_task, start_scheduler}
use skibios.Service.{Frame, Outcome, returns}
use skibios.Timer.{os_timer_config}
use skibios.System.{
  svc_service_hand_over, svc_service_start_scheduler, svc_service_cpu_freq_update,
  svc_service_hwreg_write, svc_service_hwreg_read, svc_service_device_reset,
}
use skibios.Permission.{
  svc_service_invoke_base, svc_service_release_base, svc_service_grant_permission,
}
use skibios.Interrupt.{
  arch_interrupt_enable, arch_interrupt_disable, arch_interrupt_priority, arch_interrupt_register,
  svc_service_int_enable, svc_service_int_disable, svc_service_int_set_priority,
  svc_service_int_register,
}
use skibios.Task.Hibernate.{hibernate_current, count_hibernation, svc_service_hibernate}
use skibios.Task.Promote.{
  enter_promotion, promote_owner, leave_promotion, demote_current, release_holder,
  svc_service_priority_promote, svc_service_priority_demote,
}
use skibios.Task.Create.{svc_service_task_create}
use skibios.Task.Kill.{svc_service_task_kill}
use skibios.Dispatch.Owner.{task_create-owner, task_kill-owner}

-- How many services may follow the one with this code.
abbrev pub rank : ℕ → ℕ
rank code =
    if code == release_base
    then 2
    else (if (code == invoke_base)
          || (code == priority_demote)
          || (code == kill_task)
          || (code == start_scheduler)
        then 1
        else 0)

pub record IsStep (fr fr' : Frame) : Type 0 where
  pub code : (fr'.svc_num ≡ fr.svc_num) ⊎ (rank fr'.svc_num < rank fr.svc_num)
  pub owner : fr'.kernel.current_task ≡ fr.kernel.current_task
  pub permissions :
      (i : ℕ)
      → i ≢ 0
      → fr.kernel.current_task ≢ 0
      → (fr'.kernel.permissions i ≡ fr.kernel.permissions i) ⊎ (fr'.kernel.permissions i ≡ 0)

abbrev pub Steps : ℕ → (Frame → Outcome) → Type 0
Steps code service = (fr fr' : Frame) → fr.svc_num ≡ code → service fr ≡ returns fr' → IsStep fr fr'

-- The services that change neither the permissions nor the running task.
still-IsStep :
    (fr fr' : Frame)
    → (fr'.svc_num ≡ fr.svc_num) ⊎ (rank fr'.svc_num < rank fr.svc_num)
    → fr'.kernel.current_task ≡ fr.kernel.current_task
    → fr'.kernel.permissions ≡ fr.kernel.permissions
    → IsStep fr fr'
still-IsStep fr fr' h1 h2 h3 = record {
  code = h1;
  owner = h2;
  permissions = λ i hi hc. inl (ap (λ f. f i) h3);
}

pub hand_over-step : Steps hand_over svc_service_hand_over
unfolding svc_service_hand_over trigger_scheduler
hand_over-step fr fr' h e = still-IsStep fr fr' (inl (ground arith)) (ground arith) (ground arith)

pub hibernate-step : (code : ℕ) → Steps code svc_service_hibernate
unfolding svc_service_hibernate hibernate_current count_hibernation trigger_scheduler
hibernate-step code fr fr' h e =
    still-IsStep fr fr' (inl (ground arith)) (ground arith) (ground arith)

pub promote-step : (c : Config) (code : ℕ) → Steps code (svc_service_priority_promote c)
unfolding svc_service_priority_promote enter_promotion promote_owner trigger_scheduler
promote-step c code fr fr' h e =
    still-IsStep fr fr' (inl (ground arith)) (ground arith) (ground arith)

pub demote-step : (c : Config) → Steps priority_demote (svc_service_priority_demote c)
unfolding svc_service_priority_demote leave_promotion demote_current release_holder
demote-step c fr fr' h e = still-IsStep fr fr' (inr (ground arith)) (ground arith) (ground arith)

pub hwreg_write-step : (c : Config) (code : ℕ) → Steps code (svc_service_hwreg_write c)
unfolding svc_service_hwreg_write
hwreg_write-step c code fr fr' h e =
    still-IsStep fr fr' (inl (ground arith)) (ground arith) (ground arith)

pub hwreg_read-step : (c : Config) (code : ℕ) → Steps code (svc_service_hwreg_read c)
unfolding svc_service_hwreg_read
hwreg_read-step c code fr fr' h e =
    still-IsStep fr fr' (inl (ground arith)) (ground arith) (ground arith)

pub create-step : (c : Config) (code : ℕ) → Steps code (svc_service_task_create c)
create-step c code fr fr' h e =
    let (s, w) = task_create-owner c fr fr' e in still-IsStep fr fr' (inl s) w.0 w.1

pub kill-step : (c : Config) → Steps kill_task (svc_service_task_kill c)
kill-step c fr fr' h e =
    let (s, w) = task_kill-owner c fr fr' e in still-IsStep fr fr' (ground arith) w.0 w.1

pub invoke_base-step : (c : Config) → Steps invoke_base (svc_service_invoke_base c)
unfolding svc_service_invoke_base
invoke_base-step c fr fr' h e = still-IsStep fr fr' (ground arith) (ground arith) (ground arith)

pub release_base-step : (c : Config) → Steps release_base (svc_service_release_base c)
unfolding svc_service_release_base
release_base-step c fr fr' h e = still-IsStep fr fr' (ground arith) (ground arith) (ground arith)

pub grant_permission-step : (c : Config) (code : ℕ) → Steps code (svc_service_grant_permission c)
unfolding svc_service_grant_permission
grant_permission-step c code fr fr' h e = record {
  code = inl (ground arith);
  owner = ground arith;
  permissions = λ i hi hc. inl (ground arith);
}

pub int_enable-step : (code : ℕ) → Steps code svc_service_int_enable
unfolding svc_service_int_enable arch_interrupt_enable
int_enable-step code fr fr' h e =
    still-IsStep fr fr' (inl (ground arith)) (ground arith) (ground arith)

pub int_disable-step : (code : ℕ) → Steps code svc_service_int_disable
unfolding svc_service_int_disable arch_interrupt_disable
int_disable-step code fr fr' h e =
    still-IsStep fr fr' (inl (ground arith)) (ground arith) (ground arith)

pub int_register-step : (c : Config) (code : ℕ) → Steps code (svc_service_int_register c)
unfolding svc_service_int_register arch_interrupt_register
int_register-step c code fr fr' h e =
    still-IsStep fr fr' (inl (ground arith)) (ground arith) (ground arith)

pub set_priority-step : (code : ℕ) → Steps code svc_service_int_set_priority
unfolding svc_service_int_set_priority arch_interrupt_priority
set_priority-step code fr fr' h e =
    still-IsStep fr fr' (inl (ground arith)) (ground arith) (ground arith)

pub cpu_freq-step : (c : Config) (code : ℕ) → Steps code (svc_service_cpu_freq_update c)
unfolding svc_service_cpu_freq_update os_timer_config
cpu_freq-step c code fr fr' h e =
    still-IsStep fr fr' (inl (ground arith)) (ground arith) (ground arith)

pub device_reset-step : (code : ℕ) → Steps code svc_service_device_reset
unfolding svc_service_device_reset
device_reset-step code fr fr' h e = absurd (ground arith)

-- A permission is kept or dropped.
abbrev Kept : (ℕ → ℕ) → (ℕ → ℕ) → Type 0
Kept p q = (i : ℕ) → i ≢ 0 → (q i ≡ p i) ⊎ (q i ≡ 0)

pub start_scheduler-step : (c : Config) → Steps start_scheduler (svc_service_start_scheduler c)
unfolding svc_service_start_scheduler
start_scheduler-step c fr fr' h e =
    let p = fr.kernel.permissions in
    let kept =
      for_range_inv (Kept p) (λ i q. update q i 0) (λ j q v i hi. ground (arith, v i hi))
        (c.max_task_count - 1) 1 (update p 0 0xFFFF) (λ i hi. inl (ground arith)) in
    record {
      code = inr (ground arith);
      owner = ground arith;
      permissions = λ i hi hc. ground (arith, kept i hi);
    }
