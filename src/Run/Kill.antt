-- ===== src/Run/Kill.antt =====
-- The end of a task, by `task_kill` of another task or by `resolve_end` (src/task.c,
-- src/service/svr_task.c).
use skibios.Prelude.{
  ℕ, ◌+◌, ◌/◌, ◌<◌, ◌≡◌, refl, sym, ap, subst, ◌∙◌, Bool, true, arith, ◌==◌, if◌then◌else◌, u8, u32,
  sub16, sext8,
}
use skibios.Prelude.Loops.{for_range_inv, find_first}
use skibios.Config.{Config}
use skibios.Kvar.{Kernel, task_state_idle}
use skibios.Hardware.{enable_scheduler}
use skibios.Service.{Frame, returns}
use skibios.Task.Kill.{
  find_level, recount_task, recount, release_level, remove_level, detach_task, find_previous,
  unlink_task, svc_service_task_kill,
}

-- The kernel without what the recount changes.
abbrev forget : Kernel → Kernel
forget k = record k { max_level = 0; alc = 0; hlc = 0 }

find_level_same : (i : ℕ) (m : Kernel) → forget (find_level i m) ≡ forget m
unfolding find_level
find_level_same i m = ground arith

recount_task_same : (i : ℕ) (m : Kernel) → forget (recount_task i m) ≡ forget m
unfolding recount_task
recount_task_same i m = ground arith

recount_same : (c : Config) (k : Kernel) → forget (recount c k) ≡ forget k
unfolding recount
recount_same c k =
    let Same : Kernel → Type 0 = λ m. forget m ≡ forget k in
    for_range_inv Same recount_task (λ i m h. recount_task_same i m ∙ h) c.max_task_count 0 _
      (for_range_inv Same find_level (λ i m h. find_level_same i m ∙ h) c.max_task_count 0 _ refl)

-- What the killing of task `i` changes of the tables.
pub record IsKilled (k k' : Kernel) (i : ℕ) (itself : Bool) : Type 0 where
  pub state : (j : ℕ) → k'.state j ≡ (if j == i then task_state_idle else k.state j)
  pub task_obj : (j : ℕ) → k'.task_obj j ≡ (if j == i then 0 else k.task_obj j)
  pub task_id : (j : ℕ) → k'.task_id j ≡ (if j == i then 0 else k.task_id j)
  pub task_count : k'.task_count ≡ sub16 k.task_count 1
  pub total_task_count : k'.total_task_count ≡ k.total_task_count
  pub current_task : k'.current_task ≡ k.current_task
  pub normal_schedule : k'.normal_schedule ≡ k.normal_schedule
  pub self_kill : k'.self_kill ≡ (if itself then true else k.self_kill)
  pub next_task :
      find_previous k i < i
      → k'.next_task
        ≡ (if k'.self_kill then u32 (k.next_task + sext8 (k.jmp_list i)) else k.next_task)

find_previous-congr :
    (k m : Kernel) (i : ℕ) → m.jmp_list ≡ k.jmp_list → find_previous m i ≡ find_previous k i
unfolding find_previous
find_previous-congr k m i e = ap (λ g. find_first i 0 (λ j. u32 (j + sext8 (g j)) == i)) e

-- Before `unlink_task`.
abbrev detached : Config → Kernel → ℕ → Bool → Kernel
detached c k i itself =
    let k1 = detach_task (release_level c k i) i in
    record k1 {
      self_kill = if itself then true else k1.self_kill;
      task_count = sub16 k1.task_count 1;
    }

detached-jmp_list :
    (c : Config) (k : Kernel) (i : ℕ) (itself : Bool)
    → (detached c k i itself).jmp_list ≡ k.jmp_list
unfolding release_level remove_level detach_task
detached-jmp_list c k i itself = ground arith

unlinked-next_task :
    (m : Kernel) (i : ℕ)
    → find_previous m i < i
    → (unlink_task m i).next_task
      ≡ (if m.self_kill then u32 (m.next_task + sext8 (m.jmp_list i)) else m.next_task)
unfolding unlink_task
unlinked-next_task m i h = ground arith

unlinked-IsKilled :
    (c : Config) (k : Kernel) (i : ℕ) (itself : Bool)
    → IsKilled k (unlink_task (detached c k i itself) i) i itself
unfolding release_level remove_level detach_task unlink_task
unlinked-IsKilled c k i itself =
    let m = detached c k i itself in
    let e : m.jmp_list ≡ k.jmp_list = detached-jmp_list c k i itself in
    record {
      state = λ j. ground arith;
      task_obj = λ j. ground arith;
      task_id = λ j. ground arith;
      task_count = ground arith;
      current_task = ground arith;
      normal_schedule = ground arith;
      self_kill = ground arith;
      total_task_count = ground arith;
      next_task = λ h. ground (
        arith,
        unlinked-next_task m i (subst (λ x. x < i) (sym (find_previous-congr k m i e)) h),
        ap (λ g. g i) e,
      );
    }

-- The service, whatever its caller.
pub task_kill-IsKilled :
    (c : Config) (fr fr' : Frame)
    → svc_service_task_kill c fr ≡ returns fr'
    → IsKilled fr.kernel fr'.kernel (u8 (fr.arguments 0 / 65536)) (fr.arguments 1 == 1)
unfolding svc_service_task_kill enable_scheduler
task_kill-IsKilled c fr fr' e =
    let i = u8 (fr.arguments 0 / 65536) in
    let itself = fr.arguments 1 == 1 in
    let m = unlink_task (detached c fr.kernel i itself) i in
    let v = unlinked-IsKilled c fr.kernel i itself in
    let s = recount_same c m in
    let k' = enable_scheduler (recount c m) in
    let same : k' ≡ fr'.kernel = ground arith in
    subst (λ x. IsKilled fr.kernel x i itself) same
      (record {
        state = λ j. ap (λ x. x.state j) s ∙ v.state j;
        task_obj = λ j. ap (λ x. x.task_obj j) s ∙ v.task_obj j;
        task_id = λ j. ap (λ x. x.task_id j) s ∙ v.task_id j;
        task_count = ap (λ x. x.task_count) s ∙ v.task_count;
        current_task = ap (λ x. x.current_task) s ∙ v.current_task;
        normal_schedule = ap (λ x. x.normal_schedule) s ∙ v.normal_schedule;
        self_kill = ap (λ x. x.self_kill) s ∙ v.self_kill;
        total_task_count = ap (λ x. x.total_task_count) s ∙ v.total_task_count;
        next_task = λ h.
            ap (λ x. x.next_task) s
            ∙ subst
                (λ b. m.next_task ≡ (
                  if b
                  then u32 (fr.kernel.next_task + sext8 (fr.kernel.jmp_list i))
                  else fr.kernel.next_task))
                (sym (ap (λ x. x.self_kill) s)) (v.next_task h);
      })
