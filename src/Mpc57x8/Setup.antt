-- ===== src/Mpc57x8/Setup.antt =====
-- The timer and the stack of a new task on MPC57x8 (src/arch/mpc57x8/os_timer.c and os_util.c).
use skibios.Prelude.{ℕ, ◌+◌, ◌-◌, ◌*◌, ◌/◌, ◌≤◌, ◌<◌, ◌≡◌, ◌≢◌, ◌⊎◌, false, ltb, u32, arith}
use native.Mathlib.Nat.{div-le_self}
use skibios.Error.{error_none}
use skibios.Mpc57x8.{
  Port, Device, stm_0_channel_0_int, context_switch_sw_int, os_timer_config, os_timer_init,
  arch_kernel_init, frame_start, arch_task_stack_init,
}

-- In the order of `kernel_init`, `arch_kernel_init` and then `os_timer_init` for a 32-bit frequency: both
-- return ERROR_NONE, for the guard of the timer's value cannot fail. Both interrupts then go to core 0
-- alone, the timer's to the scheduler and the other to the context switch, and the timer's has the
-- higher priority; the timer is enabled from 0 to the frequency divided by 10 * TASK_PER_SEC. The
-- settings of every other interrupt are as before.
pub arch_kernel_init-os_timer_init :
    (c : Port) (d : Device) (frequency : ℕ)
    → frequency < 4294967296
    → let (d1, e1) = arch_kernel_init c d in
      let (d2, e2) = os_timer_init c d1 frequency in
      (e1 ≡ error_none)
      × (e2 ≡ error_none)
      × (d2.prc_seln stm_0_channel_0_int ≡ 8)
      × (d2.prc_seln context_switch_sw_int ≡ 8)
      × (d2.vector_ram stm_0_channel_0_int ≡ c.scheduler_addr)
      × (d2.vector_ram context_switch_sw_int ≡ c.pre_context_switch_handler_addr)
      × (d2.prin context_switch_sw_int < d2.prin stm_0_channel_0_int)
      × (d2.cen ≡ 1)
      × (d2.cnt ≡ 0)
      × (d2.cmp ≡ frequency / u32 (c.task_per_sec * 10))
      × ((j : ℕ)
          → j ≢ stm_0_channel_0_int
          → j ≢ context_switch_sw_int
          → (d2.prc_seln j ≡ d.prc_seln j)
            × (d2.prin j ≡ d.prin j)
            × (d2.vector_ram j ≡ d.vector_ram j))
unfolding arch_kernel_init os_timer_init os_timer_config
arch_kernel_init-os_timer_init c d frequency l =
    let q = div-le_self frequency (u32 (c.task_per_sec * 10)) in
    let fits : ltb 0xFFFFFFFF (frequency / u32 (c.task_per_sec * 10)) ≡ false = ground (arith, q) in
    ground (arith, fits)

-- Only words of its own stack are written for a new task, where the stack has at least 23 words and lies
-- within the 32-bit address space; and the place of every other task's stack is as before.
pub arch_task_stack_init_bounds :
    (c : Port) (d : Device) (i ptr_func proc_arg a : ℕ)
    → 23 ≤ c.task_stack_size
    → d.psp_array i + c.task_stack_size * 4 ≤ 4294967296
    → (a < d.psp_array i) ⊎ (d.psp_array i + c.task_stack_size * 4 ≤ a)
    → let (d', error) = arch_task_stack_init c d i ptr_func proc_arg in
      (d'.mem a ≡ d.mem a) × ((j : ℕ) → j ≢ i → d'.psp_array j ≡ d.psp_array j)
unfolding arch_task_stack_init
arch_task_stack_init_bounds c d i ptr_func proc_arg a size fits away =
    let p = frame_start c (d.psp_array i) in
    let place : p ≡ d.psp_array i + c.task_stack_size * 4 - 92 = omega arith in
    (ground (arith, place), λ j h. ground arith)
