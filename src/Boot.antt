-- ===== src/Boot.antt =====
-- The start of the kernel: `kernel_init` and `start_scheduler` of src/kernel.c, `arch_kernel_init` and
-- `arch_mpu_init` of src/arch/arm-m3m4/os_util.c, and `vector_table_relocate` of
-- src/arch/arm-m3m4/arch_interrupt.c. `none`: a service call on the way has not returned.
pub mod Priority
pub mod Start
use skibios.Prelude.{
  ℕ, ◌+◌, ◌-◌, ◌*◌, ◌==◌, Bool, true, false, Option, none, some, if◌then◌else◌, update, u8, u32,
  bit_and, bit_or,
}
use skibios.Prelude.Loops.{for_range}
use skibios.Config.{Config}
use skibios.Error.{error_none, error_mpu_unsupported, error_scheduler_already_running}
use skibios.Kvar.{Kernel, Task, task_state_idle}
use skibios.Hardware.{
  write_reg, set_bits, vtable, apint, syspri2, syspri3, syshndctrl, actlr, mputype, mpuctrl, mpurnr,
  mpurbar, mpurasr,
}
use skibios.Service.{Frame, Outcome, returns, resets, faults, hangs}
use skibios.Svc
use skibios.Timer.{os_timer_init}
use skibios.Macros.{svc}
use skibios.Api.{interrupt_set_priority, task_init, task_start, then_return, direct}

-- The vectors of the flash go to the RAM, and the table of the RAM becomes the current one.
unfoldable pub vector_table_relocate : Config → Kernel → Kernel
vector_table_relocate c k =
    let value = k.mem vtable in
    let copy =
      for_range c.num_of_interrupts 0
        (λ i m. update m (u32 (c.vector_ram + 4 * i)) (m (u32 (i * 4 + value)))) k.mem in
    record k { mem = update copy vtable c.kernel_start_address }

-- The kernel after a call that returns.
unfoldable pub after : Outcome → Option Kernel
after (returns fr) = some fr.kernel
after (resets k) = none
after faults = none
after hangs = none

unfoldable pub lower_priority : Config → ℕ → Option Kernel → Option Kernel
unfolding after interrupt_set_priority
lower_priority c i none = none
lower_priority c i (some k) = after (interrupt_set_priority c k i 0x20)

-- The writes before the loop: APINT_VECKEY | PRIGROUP_8_1, the vectors of SVC (11) and PendSV (14),
-- and their priorities.
unfoldable pub arch_setup : Config → Kernel → Kernel
arch_setup c k =
    let k1 = write_reg apint (bit_or 0x05FA0400 (bit_and (k.mem apint) 0xFFFF)) k in
    let k2 = write_reg apint (bit_and (k1.mem apint) 0xFFFF) k1 in
    let k3 = write_reg (u32 (c.kernel_start_address + 44)) c.svc_handler_addr k2 in
    let k4 = write_reg (u32 (c.kernel_start_address + 56)) c.pendsv_handler_addr k3 in
    let k5 = set_bits syspri3 0x00E00000 (set_bits syspri3 0xE0000000 (set_bits syspri2 0 k4)) in
    if c.disable_buffer then set_bits actlr 2 k5 else k5

unfoldable pub arch_kernel_init : Config → Kernel → Option Kernel
unfolding arch_setup lower_priority
arch_kernel_init c k =
    for_range (c.num_of_interrupts - 16) 16 (lower_priority c) (some (arch_setup c k))

unfoldable pub region : ℕ → ℕ → ℕ → Kernel → Kernel
region number address attributes k =
    write_reg mpurasr attributes (write_reg mpurbar address (write_reg mpurnr number k))

-- Regions 0 (flash), 1 (SRAM), 2 (peripherals), 6 (kernel) and 7 (the first task).
unfoldable pub fixed_regions : Config → Kernel → Kernel
unfolding region
fixed_regions c k =
    let k0 = region 0 0 (bit_or 0x20000 (bit_or 56 (bit_or 0x6000000 1))) k in
    let k1 =
      region 1 0x20000000 (bit_or 0x60000 (bit_or 34 (bit_or 0x10000000 (bit_or 0x3000000 1))))
        k0 in
    let k2 = region 2 0x40000000 (bit_or 0x50000 (bit_or 56 (bit_or 0x3000000 1))) k1 in
    let k6 =
      region 6 0x20000000
        (bit_or (u32 (c.kernel_region_size * 2))
          (bit_or 0x10060000 (bit_or 0x2000000 (bit_or (u32 (c.kernel_region_srd * 256)) 1))))
        k2 in
    region 7 c.mpu_table_start
      (bit_or (u32 (c.mpu_pstack_size * 2)) (bit_or 0x10060000 (bit_or 0x3000000 1))) k6

-- The result is the new kernel and the error code.
unfoldable pub arch_mpu_init : Config → Kernel → Kernel × ℕ
unfolding fixed_regions region
arch_mpu_init c k =
    let k1 = fixed_regions c (write_reg mpuctrl 0 k) in
    let k2 = write_reg mpurnr 0 (for_range 3 3 (λ i m. region i 0 0 m) k1) in
    let k3 = write_reg (u32 (c.kernel_start_address + 16)) c.mem_fault_handler_addr k2 in
    let k4 = write_reg (u32 (c.kernel_start_address + 20)) c.bus_fault_handler_addr k3 in
    let k5 = write_reg mpuctrl 5 (set_bits syshndctrl 0x30000 k4) in
    if k.mem mputype == 0 then (k, error_mpu_unsupported) else (k5, error_none)

-- "Initialize Base task"
unfoldable pub start_base : Config → Kernel → Option Kernel
unfolding after task_init task_start
start_base c k = elim (after (task_init c k c.base_task_addr)) [
  | none ↦ none
  | some k1 ↦
      let base = record (k1.objs c.base_task_addr) { ptr_func = c.base_task_func; priority = 0 } in
      let k2 = record k1 { objs = update k1.objs c.base_task_addr base } in
      elim (after (task_start c k2 c.base_task_addr)) [
        | none ↦ none
        | some k3 ↦
            some (record k3 { permissions = update k3.permissions 0 0xFFFF; current_task = 0 })
      ]
]

-- From "Initialize Process states" on; `heap_init` touches no variable of this model.
unfoldable pub init_tasks : Config → Kernel → Option Kernel
unfolding arch_mpu_init start_base
init_tasks c k =
    let idle = for_range c.max_task_count 0 (λ i s. update s i task_state_idle) k.state in
    let (k1, error) = arch_mpu_init c (record k { state = idle; pstack_addr = c.proc_heap_addr }) in
    let started = start_base c k1 in if error == error_none then started else some k1

-- The result is ERROR_NONE on every path.
unfoldable pub kernel_init : Config → Kernel → Option (Kernel × ℕ)
unfolding vector_table_relocate arch_kernel_init init_tasks
kernel_init c k =
    elim (arch_kernel_init c (vector_table_relocate c (record k { first_start = false }))) [
      | none ↦ none
      | some k1 ↦
          let (k2, error) = os_timer_init c k1 k1.cpu_freq in
          let rest = (if error == error_none then init_tasks c k2 else some k2) in
          elim rest [ none ↦ none | some k3 ↦ some (k3, error_none) ]
    ]

-- `switch_mcu_mode` is assembly that calls START_SCHEDULER; the call does not come back to `main`.
unfoldable pub start_scheduler : Config → Kernel → Outcome
unfolding svc direct
start_scheduler c k =
    if k.first_start
    then direct k error_scheduler_already_running
    else svc c (record k { current_task = 0 }) Svc.start_scheduler 0 0 0 0
