-- ===== src/Task/Kill.antt =====
-- `svc_service_task_kill` of src/service/svr_task.c, in the order of its body.
pub mod Unlink
pub mod Levels
use skibios.Prelude.{
  ℕ, ◌+◌, ◌-◌, ◌/◌, Bool, true, false, not, ◌&&◌, ltb, leb, ◌==◌, if◌then◌else◌, update, u8, u32,
  sub8, sub16, sext8,
}
use skibios.Prelude.Loops.{for_range, find_first}
use skibios.Config.{Config}
use skibios.Error.{error_none}
use skibios.Kvar.{Kernel, task_state_idle}
use skibios.Hardware.{enable_scheduler}
use skibios.Service.{Frame, Outcome, returns, faults}
use skibios.Svc.{hand_over}
use skibios.Task.Create.{has_hibernate_bit}

-- The first slot other than `i` with the priority of `i`, or the number of slots.
unfoldable pub find_same_level : Config → Kernel → ℕ → ℕ
find_same_level c k i =
    find_first c.max_task_count 0 (λ j. not (i == j) && (k.prio_current j == k.prio_current i))

-- The variables of the loop that closes the gap: `found` and `level_stash`.
pub record Removal : Type 0 where
  pub found : Bool
  pub stash : ℕ → ℕ

unfoldable pub remove_step : ℕ → ℕ → Removal → Removal
remove_step p j s =
    let found = (if s.stash j == p then true else s.found) in
    record { found = found; stash = if found then update s.stash j (s.stash (j + 1)) else s.stash }

unfoldable pub remove_level : Kernel → ℕ → Kernel
remove_level k i = record k {
  level_stash =
      (for_range k.lstash_ptr 0 (remove_step (k.prio_current i))
        (record { found = false; stash = k.level_stash })).stash;
  lstash_ptr = sub8 k.lstash_ptr 1;
}

-- "Re-calculate level_stash"
unfoldable pub release_level : Config → Kernel → ℕ → Kernel
release_level c k i = if ltb (find_same_level c k i) c.max_task_count then k else remove_level k i

-- From `pkill_continue` on.
unfoldable pub detach_task : Kernel → ℕ → Kernel
detach_task k i =
    let ptr = k.task_obj i in
    record k {
      state = update k.state i task_state_idle;
      objs = update k.objs ptr (record (k.objs ptr) { task_id = 0 });
      task_id = update k.task_id i 0;
      task_obj = update k.task_obj i 0;
    }

-- `for(j = 0; j < i; j++) if(i == (j + jmp_list[j])) break;`
unfoldable pub find_previous : Kernel → ℕ → ℕ
find_previous k i = find_first i 0 (λ j. u32 (j + sext8 (k.jmp_list j)) == i)

-- "calculate jmp_list"
unfoldable pub unlink_task : Kernel → ℕ → Kernel
unlink_task k i =
    let j = find_previous k i in
    let joined = update k.jmp_list j (u8 (k.jmp_list j + k.jmp_list i)) in
    record k {
      next_task = if k.self_kill then u32 (k.next_task + sext8 (joined i)) else k.next_task;
      jmp_list = update joined i 0;
    }

unfoldable pub find_level : ℕ → Kernel → Kernel
find_level i k =
    if leb k.max_level (k.prio_current i) && not (k.state i == task_state_idle)
    then record k { max_level = k.prio_current i }
    else k

unfoldable pub recount_task : ℕ → Kernel → Kernel
recount_task i k =
    if k.prio_current i == k.max_level
    then (if has_hibernate_bit (k.state i)
        then record k { hlc = u8 (k.hlc + 1) }
        else record k { alc = u8 (k.alc + 1) })
    else k

-- "Find new max level (Priority Level), alc & hlc"
unfoldable pub recount : Config → Kernel → Kernel
recount c k =
    let k1 =
      for_range c.max_task_count 0 find_level (record k { max_level = 0; alc = 0; hlc = 0 }) in
    for_range c.max_task_count 0 recount_task k1

-- The index is not checked: an id that names no slot makes the service write behind the arrays.
unfoldable pub svc_service_task_kill : Config → Frame → Outcome
svc_service_task_kill c fr =
    let i = u8 (fr.arguments 0 / 65536) in
    let itself = fr.arguments 1 == 1 in
    let k1 = detach_task (release_level c fr.kernel i) i in
    let k2 = record k1 {
      self_kill = if itself then true else k1.self_kill;
      task_count = sub16 k1.task_count 1;
    } in
    let k3 = enable_scheduler (recount c (unlink_task k2 i)) in
    if ltb i c.max_task_count
    then returns (record fr {
      kernel = k3;
      svc_num = if itself then hand_over else fr.svc_num;
      error = error_none;
    })
    else faults
