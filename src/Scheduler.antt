-- ===== src/Scheduler.antt =====
-- `scheduler` of src/kernel.c, in the parts that its body has: the sweep over the hibernating tasks,
-- the scan for the next task, and the timer settings at the end. The context switch that the
-- scheduler requests makes `current_task` the `next_task` (src/arch/arm-m3m4/pendsv_handler.S, and
-- `timer_routine` of src/arch/ossim/os_timer.c).
pub mod Sweep
pub mod Rounds
pub mod Choice
pub mod Steady
pub mod Total
pub mod Active
use skibios.Prelude.{
  ℕ, zero, suc, ◌+◌, ◌*◌, Bool, true, false, ◌&&◌, Option, none, some, if◌then◌else◌, leb, ◌==◌,
  update, u8, u32, sub8, sub32, sext8,
}
use skibios.Config.{Config}
use skibios.Kvar.{
  Kernel, task_state_active, task_state_sleep, task_state_hibernate_g, task_state_hibernate_l,
}
use skibios.Hardware.{
  enable_scheduler, disable_scheduler, scheduler_timer_reset, trigger_context_switch,
}

-- The bookkeeping and the new state of a hibernating task whose condition holds.
unfoldable pub wake : Kernel → ℕ → Kernel
wake k i =
    if k.prio_current i == k.max_level
    then record k {
      hlc = sub8 k.hlc 1;
      alc = u8 (k.alc + 1);
      state = update k.state i task_state_sleep;
    }
    else record k { state = update k.state i task_state_sleep }

-- `*(op1[k]) - *(op2[k])`
abbrev pub elapsed : Kernel → ℕ → ℕ
elapsed k i = sub32 (k.mem (k.op1 i)) (k.mem (k.op2 i))

unfoldable pub check_hibernate_g : Kernel → ℕ → Kernel
unfolding wake
check_hibernate_g k i =
    if (k.state i == task_state_hibernate_g) && leb (k.hib_value i) (elapsed k i)
    then wake k i
    else k

unfoldable pub check_hibernate_l : Kernel → ℕ → Kernel
unfolding wake
check_hibernate_l k i =
    if (k.state i == task_state_hibernate_l) && leb (elapsed k i) (k.hib_value i)
    then wake k i
    else k

unfoldable pub check_hibernate : Kernel → ℕ → Kernel
unfolding check_hibernate_g check_hibernate_l
check_hibernate k i = check_hibernate_l (check_hibernate_g k i) i

-- The do-while loop; `k` of the source is the index `i`, a `uint8_t`. `none`: the fuel ran out.
unfoldable pub sweep : ℕ → Kernel → ℕ → Option Kernel
sweep zero k i = none
sweep (suc fuel) k i =
    let k' = check_hibernate k i in
    let i' = u8 (i + k.jmp_list i) in
    let rest = sweep fuel k' i' in if i' == k.next_task then some k' else rest

-- What the endless loop of the scheduler changes: `next_task`, `level` and `lptr`.
pub record Scan : Type 0 where
  pub next : ℕ
  pub level : ℕ
  pub lptr : ℕ

-- One round: step along the jump list, and one level down when the current task is passed.
unfoldable pub scan_step : Kernel → Scan → Scan
scan_step k s =
    let next = u32 (s.next + sext8 (k.jmp_list s.next)) in
    if (k.current_task == next) && k.enable_dws
    then record { next = next; level = k.level_stash (sub8 s.lptr 1); lptr = sub8 s.lptr 1 }
    else record s { next = next }

abbrev pub is_ready : Kernel → Scan → Bool
is_ready k s = (k.state s.next == task_state_sleep) && (k.prio_current s.next == s.level)

unfoldable pub scan : ℕ → Kernel → Scan → Option Scan
scan zero k s = none
scan (suc fuel) k s =
    let s' = scan_step k s in let rest = scan fuel k s' in if is_ready k s' then some s' else rest

-- The head of the scheduler: what becomes of the task that was running.
unfoldable pub retire_current : Kernel → Kernel
retire_current k =
    if k.normal_schedule
    then record k { state = update k.state k.current_task task_state_sleep }
    else record k { normal_schedule = true }

-- The tail of the scheduler, from `state[next_task] = TASK_STATE_ACTIVE` on.
unfoldable pub dispatch_next : Kernel → Scan → Kernel
unfolding enable_scheduler disable_scheduler scheduler_timer_reset trigger_context_switch
dispatch_next k s =
    let k1 =
      scheduler_timer_reset
        (record k { next_task = s.next; state = update k.state s.next task_state_active }) in
    let k2 =
      (if (k1.alc == 1) && (k1.hlc == 0) then disable_scheduler k1 else enable_scheduler k1) in
    let k3 = (if s.level == k2.max_level then k2 else enable_scheduler k2) in
    trigger_context_switch k3

abbrev pub scan_start : Kernel → Scan
scan_start k = record { next = k.next_task; level = k.max_level; lptr = sub8 k.lstash_ptr 1 }

-- Each tour of the ring goes one level down, and there are no more levels than tasks.
abbrev pub scan_fuel : Config → ℕ
scan_fuel c = c.max_task_count * (c.max_task_count + 1)

unfoldable pub select_next : Config → Kernel → Option Kernel
select_next c k = elim (scan (scan_fuel c) k (scan_start k)) [
  | none ↦ none
  | some s ↦ some (dispatch_next k s)
]

-- `none`: one of the two loops has not ended within its fuel.
unfoldable pub scheduler : Config → Kernel → Option Kernel
scheduler c k =
    let k1 = retire_current (disable_scheduler k) in
    elim (sweep c.max_task_count k1 (u8 k1.next_task)) [ none ↦ none | some k2 ↦ select_next c k2 ]

unfoldable pub context_switch : Kernel → Kernel
context_switch k = record k { current_task = k.next_task }

-- The timer interrupt: the scheduler, then the context switch. The lock of the simulator's threads is
-- taken as granted.
unfoldable pub timer_routine : Config → Kernel → Option Kernel
timer_routine c k = elim k.first_start [
  | false ↦ some k
  | true ↦ elim (scheduler c k) [ none ↦ none | some k' ↦ some (context_switch k') ]
]
