-- ===== src/Task/Create/Total.antt =====
-- `svc_service_task_create` (src/service/svr_task.c) as a whole: success and each refusal.
use skibios.Prelude.{
  ℕ, ◌-◌, ◌≤◌, ◌<◌, ◌≡◌, ◌≢◌, refl, ap, ◌∙◌, true, false, ◌||◌, ◌&&◌, some, List, arith, ◌==◌, ltb,
  if◌then◌else◌, update,
}
use skibios.Config.{Config, IsSupported}
use skibios.Error.{
  error_none, error_invalid_task_priority, error_out_of_memory, error_max_process_count,
}
use skibios.Kvar.{Kernel, task_state_sleep}
use skibios.Ring.{IsRing, SameRing}
use skibios.Ring.Edit.{insert, linked}
use skibios.Service.{Frame, returns, reply}
use skibios.Task.Levels.{record_level}
use skibios.Task.Stack.{place_stack, clear_stack}
use skibios.Task.Create.{
  find_idle, link_task, attach_task, has_hibernate_bit, finish_create, fits_stash, fill_slot,
  svc_service_task_create,
}
use skibios.Task.Create.Link.{find_idle_lem, record_level-total, finish_create-frame, insert-IsRing}

abbrev pub slot : Config → Frame → ℕ
slot c fr = find_idle c fr.kernel

-- The object is no variable of the kernel, the guards of the service pass, the task does not start in hibernation, the search for its level
-- starts at the base level, and `level_stash` has room for one more.
pub record CanCreate (c : Config) (fr : Frame) : Type 0 where
  pub object : c.is_kernel_var (fr.arguments 0) ≡ false
  pub room : fr.kernel.task_count < c.max_task_count
  pub free : slot c fr < c.max_task_count
  pub priority : (fr.kernel.objs (fr.arguments 0)).priority ≤ 127
  pub not_base :
      (((fr.kernel.objs (fr.arguments 0)).priority == 0) && fr.kernel.first_start) ≡ false
  pub stack : (place_stack c fr.kernel (slot c fr)).psp_array (slot c fr) ≢ 0
  pub awake : has_hibernate_bit (fr.kernel.objs (fr.arguments 0)).hibernate ≡ false
  pub base : fr.kernel.level_stash 0 ≡ 0
  pub levels : fr.kernel.lstash_ptr < c.max_task_count

-- The kernel when the level of the new task is recorded.
abbrev attached : Config → Frame → Kernel
attached c fr =
    let i = slot c fr in
    attach_task (link_task (clear_stack c (place_stack c fr.kernel i) i) i) i (fr.arguments 0)

record IsJoined (c : Config) (fr : Frame) : Type 0 where
  jmp_list : (attached c fr).jmp_list ≡ linked fr.kernel.jmp_list (slot c fr - 1) (slot c fr)
  state :
      (j : ℕ)
      → (attached c fr).state j ≡ (if j == slot c fr then task_state_sleep else fr.kernel.state j)
  level_stash : (attached c fr).level_stash ≡ fr.kernel.level_stash
  lstash_ptr : (attached c fr).lstash_ptr ≡ fr.kernel.lstash_ptr

attached-IsJoined : (c : Config) (fr : Frame) → 0 < slot c fr → CanCreate c fr → IsJoined c fr
unfolding place_stack clear_stack link_task attach_task
attached-IsJoined c fr pos v = record {
  jmp_list = ground arith;
  state = λ j. ground (arith, v.awake);
  level_stash = ground arith;
  lstash_ptr = ground arith;
}

-- With its guards passed, the service is the recording of the level and what follows it.
create-guards :
    (c : Config) (fr : Frame) (m : Kernel)
    → CanCreate c fr
    → record_level (attached c fr) (slot c fr) ≡ some m
    → svc_service_task_create c fr
      ≡ reply fr (finish_create c m (slot c fr) (fr.arguments 1)) error_none
unfolding svc_service_task_create fill_slot
create-guards c fr m v e =
    let room : ltb fr.kernel.task_count c.max_task_count ≡ true = ground (arith, v.room) in
    let low : ltb 127 (fr.kernel.objs (fr.arguments 0)).priority ≡ false =
      ground (arith, v.priority) in
    let placed : ((place_stack c fr.kernel (slot c fr)).psp_array (slot c fr) == 0) ≡ false =
      ground (arith, v.stack) in
    let stash : (place_stack c fr.kernel (slot c fr)).lstash_ptr ≡ fr.kernel.lstash_ptr =
      unfold place_stack in ground arith in
    let fits : fits_stash c (place_stack c fr.kernel (slot c fr)) m ≡ true =
      ground (arith, stash, v.levels) in
    rw (v.object, room, low, v.not_base, placed, e, fill_slot, fits)

-- On a ring, with level 0 first in `level_stash` and room for one more level there, and for an object that
-- is no variable of the kernel, a creation whose guards pass and whose task does not start in hibernation
-- returns without an error. The new task gets the first idle slot, sleeps there, and joins the ring at
-- its place; the other live tasks stay in it.
pub task_create-IsRing :
    (c : Config) (fr : Frame) (r : List ℕ)
    → IsSupported c
    → IsRing c.max_task_count fr.kernel r
    → CanCreate c fr
    → (fr' : Frame) × (svc_service_task_create c fr ≡ returns fr')
      × (fr'.error ≡ error_none)
      × (fr'.kernel.state (slot c fr) ≡ task_state_sleep)
      × IsRing c.max_task_count fr'.kernel (insert (slot c fr) r)
task_create-IsRing c fr r b v w =
    let n = c.max_task_count in
    let i = slot c fr in
    let (free, pos, live) = find_idle_lem c fr.kernel r v w.free in
    let a : IsJoined c fr = attached-IsJoined c fr pos w in
    let (m, e, s) =
      record_level-total (attached c fr) i (ap (λ f. f 0) a.level_stash ∙ w.base)
        (rw a.lstash_ptr (omega (arith, w.levels, b.few_tasks))) in
    let k' = finish_create c m i (fr.arguments 1) in
    let f : SameRing m k' = finish_create-frame c m i (fr.arguments 1) in
    let st : (j : ℕ) → k'.state j ≡ (if j == i then task_state_sleep else fr.kernel.state j) =
      λ j. ap (λ g. g j) (f.1 ∙ s.1) ∙ a.state j in
    (
      record fr { kernel = k'; error = error_none },
      create-guards c fr m w e,
      refl,
      ground (arith, st i),
      insert-IsRing n fr.kernel k' r i b.few_tasks v w.free pos free live (f.0 ∙ s.0 ∙ a.jmp_list)
          st,
    )

-- The code with which a request is refused. The guards are tried in this order.
abbrev pub create_error : Config → Frame → ℕ
create_error c fr =
    let t = fr.kernel.objs (fr.arguments 0) in
    if ltb fr.kernel.task_count c.max_task_count
    then (if ltb 127 t.priority || ((t.priority == 0) && fr.kernel.first_start)
        then error_invalid_task_priority
        else (if (place_stack c fr.kernel (slot c fr)).psp_array (slot c fr) == 0
            then error_out_of_memory
            else error_none))
    else error_max_process_count

abbrev refused : Config → Frame → Frame
refused c fr =
    let k =
      (if create_error c fr == error_out_of_memory
        then place_stack c fr.kernel (slot c fr)
        else fr.kernel) in
    let ptr = fr.arguments 0 in
    let e = create_error c fr in
    record fr {
      kernel = record k { objs = update k.objs ptr (record (k.objs ptr) { error = e }) };
      error = e;
    }

-- Where the task object is no variable of the kernel, a refused creation returns the code of the first guard that fails, writes it to the task object,
-- and leaves the ring, the states, the count of the tasks, the levels and the task objects of the
-- slots as they were.
pub task_create-refused :
    (c : Config) (fr : Frame)
    → c.is_kernel_var (fr.arguments 0) ≡ false
    → create_error c fr ≢ error_none
    → (fr' : Frame) × (svc_service_task_create c fr ≡ returns fr')
      × (fr'.error ≡ create_error c fr)
      × ((fr'.kernel.objs (fr.arguments 0)).error ≡ create_error c fr)
      × SameRing fr.kernel fr'.kernel
      × (fr'.kernel.task_count ≡ fr.kernel.task_count)
      × (fr'.kernel.level_stash ≡ fr.kernel.level_stash)
      × (fr'.kernel.task_obj ≡ fr.kernel.task_obj)
unfolding svc_service_task_create place_stack
task_create-refused c fr apart h = (
  refused c fr,
  ground arith,
  ground arith,
  ground arith,
  (ground arith, ground arith, ground arith),
  ground arith,
  ground arith,
  ground arith,
)
