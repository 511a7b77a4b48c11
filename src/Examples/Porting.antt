-- ===== src/Examples/Porting.antt =====
-- The theorems on the port to MPC57x8, on a small device.
use skibios.Prelude.{ℕ, ◌+◌, ◌-◌, ◌*◌, ◌/◌, ◌^◌, ◌<◌, ◌≡◌, ◌≢◌, inl, u32, arith}
use skibios.Error.{error_none}
use skibios.Mpc57x8.{
  Port, Device, stm_0_channel_0_int, context_switch_sw_int, interrupt_priority_default,
  arch_interrupt_enable, arch_interrupt_disable, arch_interrupt_register, os_timer_init,
  arch_kernel_init, arch_task_stack_init,
}
use skibios.Mpc57x8.Interrupts.{settings, interrupt_cycle}
use skibios.Mpc57x8.Setup.{arch_kernel_init-os_timer_init, arch_task_stack_init_bounds}

abbrev small_port : Port
small_port = record {
  task_per_sec = 100;
  task_stack_size = 64;
  num_of_interrupts = 40;
  vector_ram_addr = 0x40000000;
  scheduler_addr = 900;
  pre_context_switch_handler_addr = 910;
  resolve_end_addr = 920;
}

-- The third core runs.
abbrev third_core : Device
third_core = record {
  core_id = 2;
  prc_seln = λ i. 0;
  prin = λ i. 0;
  iackr = λ i. 0;
  vector_table = λ i. i + 1;
  vector_ram = λ i. 0;
  cif = 0;
  cen = 0;
  cmp = 0;
  cnt = 7;
  psp_array = λ i. 0x40001000 + i * 256;
  mem = λ a. 0;
}

interrupt_cycle_example :
    let (d1, e1) = arch_interrupt_register third_core 20 1000 in
    let (d2, e2) = arch_interrupt_enable d1 20 in
    let (d3, e3) = arch_interrupt_disable d2 20 in
    (e1 + e2 + e3 ≡ error_none)
    × (settings d2 20 ≡ (2 ^ (3 - 2), interrupt_priority_default, 1000))
    × (settings d3 20 ≡ (2 ^ (3 - 2), 0, 1000))
    × ((j : ℕ)
        → j ≢ 20
        → (settings d1 j ≡ settings third_core j)
          × (settings d2 j ≡ settings third_core j)
          × (settings d3 j ≡ settings third_core j))
interrupt_cycle_example = interrupt_cycle third_core 20 1000 (omega arith)

arch_kernel_init-os_timer_init_example :
    let (d1, e1) = arch_kernel_init small_port third_core in
    let (d2, e2) = os_timer_init small_port d1 16000000 in
    (e1 ≡ error_none)
    × (e2 ≡ error_none)
    × (d2.prc_seln stm_0_channel_0_int ≡ 8)
    × (d2.prc_seln context_switch_sw_int ≡ 8)
    × (d2.vector_ram stm_0_channel_0_int ≡ 900)
    × (d2.vector_ram context_switch_sw_int ≡ 910)
    × (d2.prin context_switch_sw_int < d2.prin stm_0_channel_0_int)
    × (d2.cen ≡ 1)
    × (d2.cnt ≡ 0)
    × (d2.cmp ≡ 16000000 / u32 (100 * 10))
    × ((j : ℕ)
        → j ≢ stm_0_channel_0_int
        → j ≢ context_switch_sw_int
        → (d2.prc_seln j ≡ third_core.prc_seln j)
          × (d2.prin j ≡ third_core.prin j)
          × (d2.vector_ram j ≡ third_core.vector_ram j))
arch_kernel_init-os_timer_init_example =
    arch_kernel_init-os_timer_init small_port third_core 16000000 (omega arith)

arch_task_stack_init_bounds_example :
    let (d', error) = arch_task_stack_init small_port third_core 1 1000 7 in
    (d'.mem 0x40001000 ≡ 0) × ((j : ℕ) → j ≢ 1 → d'.psp_array j ≡ third_core.psp_array j)
arch_task_stack_init_bounds_example =
    arch_task_stack_init_bounds small_port third_core 1 1000 7 0x40001000 (omega arith)
      (omega arith) (inl (omega arith))
