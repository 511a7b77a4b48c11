-- ===== src/Mpc57x8.antt =====
-- The port to MPC57x8: src/arch/mpc57x8 (arch_interrupt.c, os_timer.c, os_util.c, regmap.h). The registers
-- of the interrupt controller and of the timer are fields of a record, one for each bit field.
pub mod Interrupts
pub mod Setup
use skibios.Prelude.{
  ℕ, ◌+◌, ◌-◌, ◌*◌, ◌/◌, ◌%◌, ◌^◌, Option, none, some, ◌==◌, ltb, if◌then◌else◌, u8, u32, update,
}
use skibios.Prelude.Loops.{for_range}
use skibios.Error.{error_none, error_systick_tick_value_overflow}

abbrev pub number_of_cores : ℕ
number_of_cores = 3

abbrev pub stm_0_channel_0_int : ℕ
stm_0_channel_0_int = 36

abbrev pub interrupt_priority_default : ℕ
interrupt_priority_default = 6

abbrev pub context_switch_sw_int : ℕ
context_switch_sw_int = 0

-- What the build and the linker choose: TASK_PER_SEC, TASK_STACK_SIZE, NUM_OF_INTERRUPTS, and the addresses
-- of __VECTOR_RAM, scheduler, pre_context_switch_handler and resolve_end.
pub record Port : Type 0 where
  pub task_per_sec : ℕ
  pub task_stack_size : ℕ
  pub num_of_interrupts : ℕ
  pub vector_ram_addr : ℕ
  pub scheduler_addr : ℕ
  pub pre_context_switch_handler_addr : ℕ
  pub resolve_end_addr : ℕ

-- `prc_seln` and `prin` are the fields of PSR[n]. `iackr` holds the words from IACKR[0] on, of which the
-- first three are registers. `cif`, `cen` and `cmp` are those of channel 0 of the timer.
pub record Device : Type 0 where
  pub core_id : ℕ
  pub prc_seln : ℕ → ℕ
  pub prin : ℕ → ℕ
  pub iackr : ℕ → ℕ
  pub vector_table : ℕ → ℕ
  pub vector_ram : ℕ → ℕ
  pub cif : ℕ
  pub cen : ℕ
  pub cmp : ℕ
  pub cnt : ℕ
  pub psp_array : ℕ → ℕ
  pub mem : ℕ → ℕ

unfoldable pub arch_interrupt_enable : Device → ℕ → Device × ℕ
arch_interrupt_enable d interrupt =
    (record d { prin = update d.prin interrupt interrupt_priority_default }, error_none)

unfoldable pub arch_interrupt_disable : Device → ℕ → Device × ℕ
arch_interrupt_disable d interrupt = (record d { prin = update d.prin interrupt 0 }, error_none)

-- "direct interrupt to active core": `8 >> core_id`, in the four bits of the field.
unfoldable pub arch_interrupt_register : Device → ℕ → ℕ → Device × ℕ
arch_interrupt_register d interrupt handler = (
  record d {
    prc_seln = update d.prc_seln interrupt (8 / 2 ^ d.core_id % 16);
    vector_ram = update d.vector_ram interrupt handler;
  },
  error_none,
)

unfoldable pub arch_interrupt_priority : Device → ℕ → ℕ → Device × ℕ
arch_interrupt_priority d interrupt priority = (d, error_none)

-- FEATURE_INTERRUPT_INT_VECTORS: the places of IACKR that the three cores use; `none` is a read behind
-- the table.
abbrev pub feature_interrupt_int_vectors : ℕ → Option ℕ
feature_interrupt_int_vectors core =
    if core == 0
    then some 0
    else (if core == 1 then some 1 else (if core == 2 then some 3 else none))

unfoldable pub vector_table_relocate : Port → Device → Option (Device × ℕ)
vector_table_relocate c d =
    let copy =
      for_range c.num_of_interrupts 0 (λ n v. update v n (d.vector_table n)) d.vector_ram in
    elim (feature_interrupt_int_vectors d.core_id) [
      | none ↦ none
      | some i ↦
          some
            (record d { vector_ram = copy; iackr = update d.iackr i c.vector_ram_addr }, error_none)
    ]

-- The quotient is kept in 64 bits; the divisor is computed in 32 bits.
unfoldable pub os_timer_config : Port → Device → ℕ → Device × ℕ
os_timer_config c d new_cpu_freq =
    let os_timer_load = new_cpu_freq / u32 (c.task_per_sec * 10) in
    if ltb 0xFFFFFFFF os_timer_load
    then (d, error_systick_tick_value_overflow)
    else (record d { cif = 1; cen = 1; cmp = os_timer_load; cnt = 0 }, error_none)

unfoldable pub os_timer_init : Port → Device → ℕ → Device × ℕ
unfolding os_timer_config
os_timer_init c d new_cpu_freq =
    let (d1, error) = os_timer_config c d new_cpu_freq in
    let d2 = record d1 {
      prc_seln = update d1.prc_seln stm_0_channel_0_int 8;
      vector_ram = update d1.vector_ram stm_0_channel_0_int c.scheduler_addr;
      prin = update d1.prin stm_0_channel_0_int 2;
    } in
    if error == error_none then (d2, error) else (d1, error)

-- After the sections `kdat` and `kbss` have been set up, which are no part of this record.
unfoldable pub arch_kernel_init : Port → Device → Device × ℕ
arch_kernel_init c d = (
  record d {
    prc_seln = update d.prc_seln context_switch_sw_int 8;
    vector_ram = update d.vector_ram context_switch_sw_int c.pre_context_switch_handler_addr;
    prin = update d.prin context_switch_sw_int 1;
  },
  error_none,
)

-- 22 words below the last one of the stack.
abbrev pub frame_start : Port → ℕ → ℕ
frame_start c stack = u32 (stack + (c.task_stack_size - 1) * 4 + 4294967296 - 88)

unfoldable pub arch_task_stack_init : Port → Device → ℕ → ℕ → ℕ → Device × ℕ
arch_task_stack_init c d task_index ptr_func proc_arg =
    let p = frame_start c (d.psp_array task_index) in
    let m1 = update d.mem (u32 (p + 12)) ptr_func in
    let m2 = update m1 (u32 (p + 16)) 0xD000 in
    let m3 = update m2 (u32 (p + 24)) c.resolve_end_addr in
    (
      record d {
        psp_array = update d.psp_array task_index p;
        mem = update m3 (u32 (p + 40)) proc_arg;
      },
      error_none,
    )
