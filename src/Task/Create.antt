-- ===== src/Task/Create.antt =====
-- `svc_service_task_create` of src/service/svr_task.c, in the order of its body.
pub mod Link
pub mod Total
use skibios.Prelude.{
  ℕ, ◌+◌, ◌-◌, ◌*◌, Bool, true, false, not, ◌&&◌, ◌||◌, Option, none, some, ltb, ◌==◌,
  if◌then◌else◌, update, u8, u16, bit_and, bit_or,
}
use skibios.Prelude.Loops.{for_range, find_first}
use skibios.Config.{Config}
use skibios.Error.{
  error_none, error_invalid_task_priority, error_out_of_memory, error_max_process_count,
}
use skibios.Kvar.{Kernel, Task, task_state_idle, task_state_sleep, hibernate_state_mask}
use skibios.Hardware.{enable_scheduler}
use skibios.Service.{Frame, Outcome, returns, faults, hangs, reply, fail_task}
use skibios.Task.Levels.{record_level}
use skibios.Task.Stack.{place_stack, clear_stack, arch_task_stack_init}

-- The first slot whose state is IDLE, or the number of slots.
unfoldable pub find_idle : Config → Kernel → ℕ
find_idle c k = find_first c.max_task_count 0 (λ i. k.state i == task_state_idle)

-- "calculation for jump list"; the offsets are `int8_t`.
unfoldable pub link_task : Kernel → ℕ → Kernel
link_task k i =
    let j = i - 1 in
    let first = record k { jmp_list = update k.jmp_list i 0 } in
    let behind = record k {
      jmp_list = update (update k.jmp_list i (u8 (k.jmp_list j + 256 - (i - j)))) j (u8 (i - j));
    } in
    if i == 0 then first else behind

-- `(i << 16) | (total_task_count + 1)`
abbrev pub new_task_id : Kernel → ℕ → ℕ
new_task_id k i = bit_or (i * 65536) (k.total_task_count + 1)

-- `hibernate & HIBERNATE_STATE_MASK`, or `state & HIBERNATE_STATE_MASK`
abbrev pub has_hibernate_bit : ℕ → Bool
has_hibernate_bit s = bit_and s hibernate_state_mask == hibernate_state_mask

unfoldable pub attach_task : Kernel → ℕ → ℕ → Kernel
attach_task k i ptr = record k {
  task_obj = update k.task_obj i ptr;
  objs = update k.objs ptr (record (k.objs ptr) { task_id = new_task_id k i });
  task_id = update k.task_id i (new_task_id k i);
  state =
      if has_hibernate_bit (k.objs ptr).hibernate
      then k.state
      else update k.state i task_state_sleep;
  prio_current = update k.prio_current i (k.objs ptr).priority;
}

-- One round of "Find new max level".
unfoldable pub raise_level : ℕ → Kernel → Kernel
raise_level j k =
    if ltb k.max_level (k.prio_current j) && not (k.state j == task_state_idle)
    then (let k1 = record k { max_level = k.prio_current j; alc = 0; hlc = 0 } in
        if k.first_start then enable_scheduler k1 else k1)
    else k

-- "Update Active & Hibernation Task Level Counts"
unfoldable pub count_task : Kernel → ℕ → Kernel
count_task k i =
    if k.prio_current i == k.max_level
    then (if has_hibernate_bit (k.state i)
        then record k { hlc = u8 (k.hlc + 1) }
        else record k { alc = u8 (k.alc + 1) })
    else k

unfoldable pub start_if_second : Kernel → Kernel
start_if_second k = if (k.alc + k.hlc == 2) && k.first_start then enable_scheduler k else k

-- From `proc_continue` on.
unfoldable pub finish_create : Config → Kernel → ℕ → ℕ → Kernel
finish_create c k i arg =
    let k1 = arch_task_stack_init c k i (k.objs (k.task_obj i)).ptr_func arg in
    let k2 = record k1 {
      total_task_count = u16 (k1.total_task_count + 1);
      task_count = u16 (k1.task_count + 1);
    } in
    let k3 = for_range c.max_task_count 0 raise_level k2 in start_if_second (count_task k3 i)

-- Whether the new task's level is in the array: one that is inserted with `lstash_ptr` at MAX_TASK_COUNT
-- is written behind `level_stash`.
abbrev pub fits_stash : Config → Kernel → Kernel → Bool
fits_stash c k k' = (k'.lstash_ptr == k.lstash_ptr) || ltb k.lstash_ptr c.max_task_count

-- With a stack in place: `i` is the slot, `ptr` the task object.
unfoldable pub fill_slot : Config → Frame → Kernel → ℕ → ℕ → Outcome
fill_slot c fr k i ptr =
    elim (record_level (attach_task (link_task (clear_stack c k i) i) i ptr) i) [
      | none ↦ hangs
      | some k' ↦
          if fits_stash c k k'
          then reply fr (finish_create c k' i (fr.arguments 1)) error_none
          else faults
    ]

-- The address of the object is not checked, and every branch writes to the object.
unfoldable pub svc_service_task_create : Config → Frame → Outcome
svc_service_task_create c fr =
    let k = fr.kernel in
    let ptr = fr.arguments 0 in
    let i = find_idle c k in
    let k1 = place_stack c k i in
    if c.is_kernel_var ptr
    then faults
    else (if ltb k.task_count c.max_task_count
        then (if ltb 127 (k.objs ptr).priority
            then fail_task fr k ptr error_invalid_task_priority
            else (if ((k.objs ptr).priority == 0) && k.first_start
                then fail_task fr k ptr error_invalid_task_priority
                else (if k1.psp_array i == 0
                    then fail_task fr k1 ptr error_out_of_memory
                    else fill_slot c fr k1 i ptr)))
        else fail_task fr k ptr error_max_process_count)
