-- ===== src/Boot/Start.antt =====
-- The start of the scheduler: `start_scheduler` of src/kernel.c and the services START_SCHEDULER and
-- HAND_OVER that follow it.
use skibios.Prelude.{
  ℕ, zero, suc, ◌+◌, ◌-◌, ◌<◌, ◌≡◌, refl, true, false, arith, ◌==◌, ◌&&◌, leb, ltb, update,
  if◌then◌else◌,
}
use skibios.Prelude.Loops.{for_range}
use skibios.Config.{Config}
use skibios.Error.{error_none}
use skibios.Kvar.{Kernel, task_state_sleep}
use skibios.Hardware.{trigger_scheduler}
use skibios.Service.{Frame, returns}
use skibios.Svc
use skibios.System.{svc_service_hand_over, svc_service_start_scheduler}
use skibios.Dispatch.{svc_dispatch, find_service, call_service, svc_loop, svc_handler}
use skibios.Macros.{registers, svc_frame, svc}
use skibios.Boot.{start_scheduler}

clear_lem :
    (n i : ℕ) (p : ℕ → ℕ) (j : ℕ)
    → for_range n i (λ x q. update q x 0) p j ≡ (if leb i j && ltb j (i + n) then 0 else p j)
unfolding for_range
clear_lem zero i p j = ground arith
clear_lem (suc n) i p j = ground (arith, clear_lem n (i + 1) (update p i 0) j)

-- What the first run of the scheduler finds.
pub record IsStarted (n : ℕ) (k k' : Kernel) : Type 0 where
  pub current_task : k'.current_task ≡ 0
  pub first_start : k'.first_start ≡ true
  pub maxp_level : k'.maxp_level ≡ 127
  pub self_kill : k'.self_kill ≡ false
  pub normal_schedule : k'.normal_schedule ≡ false
  pub base_state : k'.state 0 ≡ task_state_sleep
  pub permissions : (i : ℕ) → i < n → k'.permissions i ≡ (if i == 0 then 0xFFFF else 0)
  pub jmp_list : k'.jmp_list ≡ k.jmp_list
  pub level_stash : k'.level_stash ≡ k.level_stash

service-IsStarted :
    (c : Config) (k : Kernel)
    → (fr : Frame) × (svc c (record k { current_task = 0 }) Svc.start_scheduler 0 0 0 0
        ≡ returns fr)
      × (fr.error ≡ error_none)
      × IsStarted c.max_task_count k fr.kernel
unfolding svc svc_frame registers svc_handler svc_loop call_service find_service svc_dispatch
    svc_service_start_scheduler svc_service_hand_over trigger_scheduler
service-IsStarted c k = (
  _,
  refl,
  refl,
  record {
    current_task = refl;
    first_start = refl;
    maxp_level = refl;
    self_kill = refl;
    normal_schedule = refl;
    base_state = refl;
    permissions =
        λ i l. ground (arith, clear_lem (c.max_task_count - 1) 1 (update k.permissions 0 0xFFFF) i);
    jmp_list = refl;
    level_stash = refl;
  },
)

-- The first call of `start_scheduler` returns from its services without an error. Then the base task has
-- all permissions and no other task has any, the base task sleeps, no promotion is in force, and
-- the jump list and the levels are as before.
pub start_scheduler-IsStarted :
    (c : Config) (k : Kernel)
    → k.first_start ≡ false
    → (fr : Frame) × (start_scheduler c k ≡ returns fr)
      × (fr.error ≡ error_none)
      × IsStarted c.max_task_count k fr.kernel
unfolding start_scheduler
start_scheduler-IsStarted c k h =
    let (fr, e, x, v) = service-IsStarted c k in (fr, ground (arith, e), x, v)
