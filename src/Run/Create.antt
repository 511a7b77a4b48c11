-- ===== src/Run/Create.antt =====
-- What a creation that returns does to the tables (`svc_service_task_create` of
-- src/service/svr_task.c).
use skibios.Prelude.{
  ℕ, ◌+◌, ◌-◌, ◌<◌, ◌≡◌, refl, sym, ap, ◌∙◌, Option, Option-cases, inl, inr, false, none, some,
  arith, ◌==◌, if◌then◌else◌, u16,
}
use skibios.Prelude.Loops.{for_range_inv}
use skibios.Config.{Config}
use skibios.Kvar.{Kernel, task_state_sleep}
use skibios.Hardware.{enable_scheduler}
use skibios.Service.{Frame, returns}
use skibios.Ring.Edit.{linked}
use skibios.Task.Levels.{
  Probe, found, absent, endless, search_level, search_fuel, insert_level, record_level,
}
use skibios.Task.Stack.{place_stack, clear_stack, arch_task_stack_init}
use skibios.Task.Create.{
  link_task, new_task_id, has_hibernate_bit, attach_task, raise_level, count_task, start_if_second,
  finish_create, fill_slot,
}

-- The kernel without the levels, the counts of the highest level, the stacks and the memory.
abbrev pub forget : Kernel → Kernel
forget k = record k {
  level_stash = λ i. 0;
  lstash_ptr = 0;
  max_level = 0;
  alc = 0;
  hlc = 0;
  psp_array = λ i. 0;
  mem = λ a. 0;
}

record_probe_same :
    (k m : Kernel) (p : ℕ) (x : Probe)
    → (elim x as (λ _. Option Kernel) [
      | found ↦ some k
      | absent s ↦ some (insert_level k p s)
      | endless ↦ none
    ])
      ≡ some m
    → forget m ≡ forget k
unfolding insert_level
record_probe_same k m p found e = let same : k ≡ m = ground arith in ap forget (sym same)
record_probe_same k m p (absent s) e =
    let same : insert_level k p s ≡ m = ground arith in ap forget (sym same)
record_probe_same k m p endless e = absurd (ground arith)

record_level_same : (k m : Kernel) (i : ℕ) → record_level k i ≡ some m → forget m ≡ forget k
unfolding record_level
record_level_same k m i e =
    record_probe_same k m (k.prio_current i)
      (search_level search_fuel k.level_stash (k.prio_current i) 0 k.lstash_ptr 0) e

raise_level_same : (j : ℕ) (m : Kernel) → forget (raise_level j m) ≡ forget m
unfolding raise_level enable_scheduler
raise_level_same j m = ground arith

count_task_same : (m : Kernel) (i : ℕ) → forget (count_task m i) ≡ forget m
unfolding count_task
count_task_same m i = ground arith

start_if_second_same : (m : Kernel) → forget (start_if_second m) ≡ forget m
unfolding start_if_second enable_scheduler
start_if_second_same m = ground arith

finish_create_same :
    (c : Config) (k : Kernel) (i arg : ℕ)
    → forget (finish_create c k i arg)
      ≡ forget (record k {
        total_task_count = u16 (k.total_task_count + 1);
        task_count = u16 (k.task_count + 1);
      })
unfolding finish_create arch_task_stack_init
finish_create_same c k i arg =
    let counted = record k {
      total_task_count = u16 (k.total_task_count + 1);
      task_count = u16 (k.task_count + 1);
    } in
    start_if_second_same _
    ∙ count_task_same _ i
    ∙ for_range_inv (λ m. forget m ≡ forget counted) raise_level (λ j m h. raise_level_same j m ∙ h)
        c.max_task_count 0 _ refl

pub record IsCreated (k k' : Kernel) (i ptr : ℕ) : Type 0 where
  pub jmp_list : k'.jmp_list ≡ linked k.jmp_list (i - 1) i
  pub state : (j : ℕ) → k'.state j ≡ (if j == i then task_state_sleep else k.state j)
  pub task_obj : (j : ℕ) → k'.task_obj j ≡ (if j == i then ptr else k.task_obj j)
  pub task_id : (j : ℕ) → k'.task_id j ≡ (if j == i then new_task_id k i else k.task_id j)
  pub task_count : k'.task_count ≡ u16 (k.task_count + 1)
  pub next_task : k'.next_task ≡ k.next_task
  pub current_task : k'.current_task ≡ k.current_task
  pub normal_schedule : k'.normal_schedule ≡ k.normal_schedule
  pub self_kill : k'.self_kill ≡ k.self_kill

-- The slot is cleared, linked and attached.
abbrev pub attached : Config → Kernel → ℕ → ℕ → Kernel
attached c k i ptr = attach_task (link_task (clear_stack c (place_stack c k i) i) i) i ptr

attached_counted-IsCreated :
    (c : Config) (k : Kernel) (i ptr : ℕ)
    → 0 < i
    → has_hibernate_bit (k.objs ptr).hibernate ≡ false
    → IsCreated k
        (record (attached c k i ptr) {
          total_task_count = u16 ((attached c k i ptr).total_task_count + 1);
          task_count = u16 ((attached c k i ptr).task_count + 1);
        })
        i
        ptr
unfolding place_stack clear_stack link_task attach_task
attached_counted-IsCreated c k i ptr pos h = record {
  jmp_list = ground arith;
  state = λ j. ground arith;
  task_obj = λ j. ground arith;
  task_id = λ j. ground arith;
  task_count = ground arith;
  next_task = ground arith;
  current_task = ground arith;
  normal_schedule = ground arith;
  self_kill = ground arith;
}

-- Two kernels that agree but for what `forget` drops.
IsCreated-congr :
    (k m m' : Kernel) (i ptr : ℕ)
    → forget m' ≡ forget m
    → IsCreated k m i ptr
    → IsCreated k m' i ptr
IsCreated-congr k m m' i ptr e v = record {
  jmp_list = ap (λ x. x.jmp_list) e ∙ v.jmp_list;
  state = λ j. ap (λ x. x.state j) e ∙ v.state j;
  task_obj = λ j. ap (λ x. x.task_obj j) e ∙ v.task_obj j;
  task_id = λ j. ap (λ x. x.task_id j) e ∙ v.task_id j;
  task_count = ap (λ x. x.task_count) e ∙ v.task_count;
  next_task = ap (λ x. x.next_task) e ∙ v.next_task;
  current_task = ap (λ x. x.current_task) e ∙ v.current_task;
  normal_schedule = ap (λ x. x.normal_schedule) e ∙ v.normal_schedule;
  self_kill = ap (λ x. x.self_kill) e ∙ v.self_kill;
}

abbrev pub counted : Kernel → Kernel
counted k = record k {
  total_task_count = u16 (k.total_task_count + 1);
  task_count = u16 (k.task_count + 1);
}

-- What a slot that is filled differs in from the one attached is forgotten.
pub filled_same :
    (c : Config) (fr fr' : Frame) (k : Kernel) (i ptr : ℕ)
    → fill_slot c fr (place_stack c k i) i ptr ≡ returns fr'
    → forget fr'.kernel ≡ forget (counted (attached c k i ptr))
unfolding fill_slot
filled_same c fr fr' k i ptr e = elim (Option-cases (record_level (attached c k i ptr) i)) [
  | inl f ↦ absurd (ground arith)
  | inr (m, f) ↦
      let same : finish_create c m i (fr.arguments 1) ≡ fr'.kernel = ground arith in
      let levels : forget (counted m) ≡ forget (counted (attached c k i ptr)) =
        ap counted (record_level_same (attached c k i ptr) m i f) in
      sym (ap forget same) ∙ finish_create_same c m i (fr.arguments 1) ∙ levels
]

pub filled-IsCreated :
    (c : Config) (fr fr' : Frame) (k : Kernel) (i ptr : ℕ)
    → 0 < i
    → has_hibernate_bit (k.objs ptr).hibernate ≡ false
    → fill_slot c fr (place_stack c k i) i ptr ≡ returns fr'
    → IsCreated k fr'.kernel i ptr
filled-IsCreated c fr fr' k i ptr pos h e =
    IsCreated-congr k (counted (attached c k i ptr)) fr'.kernel i ptr
      (filled_same c fr fr' k i ptr e) (attached_counted-IsCreated c k i ptr pos h)
