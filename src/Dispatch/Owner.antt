-- ===== src/Dispatch/Owner.antt =====
-- Services that neither switch tasks nor touch `permissions`: the creation and the killing of a task
-- (src/service/svr_task.c), which loop over the tables.
use skibios.Prelude.{
  ℕ, ◌/◌, ◌≡◌, ◌⊎◌, true, ◌==◌, if◌then◌else◌, u8, sub16, refl, Option, some, none, arith,
  Option-cases, inl, inr,
}
use skibios.Prelude.Loops.{for_range_inv}
use skibios.Config.{Config}
use skibios.Kvar.{Kernel}
use skibios.Hardware.{enable_scheduler}
use skibios.Service.{Frame, returns}
use skibios.Svc.{hand_over}
use skibios.Task.Levels.{
  Probe, found, absent, endless, search_level, search_fuel, insert_level, record_level,
}
use skibios.Task.Stack.{place_stack, clear_stack, arch_task_stack_init}
use skibios.Task.Create.{
  find_idle, link_task, attach_task, raise_level, count_task, start_if_second, finish_create,
  fill_slot, svc_service_task_create,
}
use skibios.Task.Kill.{
  release_level, remove_level, detach_task, unlink_task, find_level, recount_task, recount,
  svc_service_task_kill,
}

abbrev pub SameOwner : Kernel → Kernel → Type 0
SameOwner k m = (m.current_task ≡ k.current_task) × (m.permissions ≡ k.permissions)

raise_level-owner : (j : ℕ) (m k : Kernel) → SameOwner k m → SameOwner k (raise_level j m)
unfolding raise_level enable_scheduler
raise_level-owner j m k h = ground arith

count_task-owner : (i : ℕ) (m k : Kernel) → SameOwner k m → SameOwner k (count_task m i)
unfolding count_task
count_task-owner i m k h = ground arith

start_if_second-owner : (m k : Kernel) → SameOwner k m → SameOwner k (start_if_second m)
unfolding start_if_second enable_scheduler
start_if_second-owner m k h = ground arith

finish_create-owner : (c : Config) (k : Kernel) (i arg : ℕ) → SameOwner k (finish_create c k i arg)
unfolding finish_create arch_task_stack_init
finish_create-owner c k i arg = start_if_second-owner _ k (
    count_task-owner i _ k (
      for_range_inv (SameOwner k) raise_level (λ j m h. raise_level-owner j m k h) c.max_task_count
        0 _ (refl, refl)))

record_probe-owner :
    (k m : Kernel) (p : ℕ) (x : Probe)
    → (elim x as (λ _. Option Kernel) [
      | found ↦ some k
      | absent s ↦ some (insert_level k p s)
      | endless ↦ none
    ])
      ≡ some m
    → SameOwner k m
unfolding insert_level
record_probe-owner k m p found e = ground arith
record_probe-owner k m p (absent s) e = ground arith
record_probe-owner k m p endless e = ground arith

record_level-owner : (k m : Kernel) (i : ℕ) → record_level k i ≡ some m → SameOwner k m
unfolding record_level
record_level-owner k m i e =
    record_probe-owner k m (k.prio_current i)
      (search_level search_fuel k.level_stash (k.prio_current i) 0 k.lstash_ptr 0) e

attached-owner :
    (c : Config) (k : Kernel) (i ptr : ℕ)
    → SameOwner k (attach_task (link_task (clear_stack c k i) i) i ptr)
unfolding attach_task link_task clear_stack
attached-owner c k i ptr = ground arith

fill_slot-owner :
    (c : Config) (fr fr' : Frame) (k : Kernel) (i ptr : ℕ)
    → fill_slot c fr k i ptr ≡ returns fr'
    → (fr'.svc_num ≡ fr.svc_num) × SameOwner k fr'.kernel
unfolding fill_slot
fill_slot-owner c fr fr' k i ptr e =
    let m = attach_task (link_task (clear_stack c k i) i) i ptr in
    elim (Option-cases (record_level m i)) [
      | inl f ↦ absurd (ground arith)
      | inr (k', f) ↦ ground (
        arith,
        attached-owner c k i ptr,
        record_level-owner m k' i f,
        finish_create-owner c k' i (fr.arguments 1),
      )
    ]

pub task_create-owner :
    (c : Config) (fr fr' : Frame)
    → svc_service_task_create c fr ≡ returns fr'
    → (fr'.svc_num ≡ fr.svc_num) × SameOwner fr.kernel fr'.kernel
unfolding svc_service_task_create place_stack
task_create-owner c fr fr' e = ground (
  arith,
  fill_slot-owner c fr fr' (place_stack c fr.kernel (find_idle c fr.kernel)) (find_idle c fr.kernel)
      (fr.arguments 0),
)

find_level-owner : (i : ℕ) (m k : Kernel) → SameOwner k m → SameOwner k (find_level i m)
unfolding find_level
find_level-owner i m k h = ground arith

recount_task-owner : (i : ℕ) (m k : Kernel) → SameOwner k m → SameOwner k (recount_task i m)
unfolding recount_task
recount_task-owner i m k h = ground arith

recount-owner : (c : Config) (k : Kernel) → SameOwner k (recount c k)
unfolding recount
recount-owner c k =
    for_range_inv (SameOwner k) recount_task (λ i m h. recount_task-owner i m k h) c.max_task_count
      0 _
      (for_range_inv (SameOwner k) find_level (λ i m h. find_level-owner i m k h) c.max_task_count 0
        _ (refl, refl))

detach-owner : (c : Config) (k : Kernel) (i : ℕ) → SameOwner k (detach_task (release_level c k i) i)
unfolding detach_task release_level remove_level
detach-owner c k i = ground arith

unlink-owner : (k : Kernel) (i : ℕ) → SameOwner k (unlink_task k i)
unfolding unlink_task
unlink-owner k i = ground arith

pub task_kill-owner :
    (c : Config) (fr fr' : Frame)
    → svc_service_task_kill c fr ≡ returns fr'
    → ((fr'.svc_num ≡ fr.svc_num) ⊎ (fr'.svc_num ≡ hand_over)) × SameOwner fr.kernel fr'.kernel
unfolding svc_service_task_kill enable_scheduler
task_kill-owner c fr fr' e =
    let i = u8 (fr.arguments 0 / 65536) in
    let itself = fr.arguments 1 == 1 in
    let k1 = detach_task (release_level c fr.kernel i) i in
    let k2 = record k1 {
      self_kill = if itself then true else k1.self_kill;
      task_count = sub16 k1.task_count 1;
    } in
    ground
      (arith, recount-owner c (unlink_task k2 i), unlink-owner k2 i, detach-owner c fr.kernel i)
