-- ===== src/Task/Stack.antt =====
-- The stack of a new task: its place and its clearing (src/service/svr_task.c), and the frame that
-- the first context switch pops (`arch_task_stack_init` of src/arch/arm-m3m4/os_util.c).
pub mod Bounds
use skibios.Prelude.{ℕ, ◌+◌, ◌-◌, ◌*◌, ◌/◌, update, u32}
use skibios.Prelude.Loops.{for_range}
use skibios.Config.{Config}
use skibios.Kvar.{Kernel}

-- `PSP_Array[i] = pstack_addr + (i * TASK_STACK_SIZE * 4)`
unfoldable pub place_stack : Config → Kernel → ℕ → Kernel
place_stack c k i = record k {
  psp_array = update k.psp_array i (u32 (k.pstack_addr + i * c.task_stack_size * 4));
}

-- `for( j = 0; j < (TASK_STACK_SIZE/4); j++) pheap_ptr[j] = 0;`
unfoldable pub clear_stack : Config → Kernel → ℕ → Kernel
clear_stack c k i = record k {
  mem = for_range (c.task_stack_size / 4) 0 (λ j m. update m (u32 (k.psp_array i + 4 * j)) 0) k.mem;
}

-- The new stack pointer leaves room for 18 words above it.
abbrev pub frame_base : Config → ℕ → ℕ
frame_base c stack = u32 (stack + (c.task_stack_size - 1) * 4 + 4294967296 - 72)

unfoldable pub arch_task_stack_init : Config → Kernel → ℕ → ℕ → ℕ → Kernel
arch_task_stack_init c k i ptr_func arg =
    let p = frame_base c (k.psp_array i) in
    let m0 = update k.mem (u32 p) 0xFFFFFFFD in
    let m1 = update m0 (u32 (p + 4)) 0x3 in
    let m2 = update m1 (u32 (p + 40)) arg in
    let m3 = update m2 (u32 (p + 60)) c.resolve_end_addr in
    let m4 = update m3 (u32 (p + 64)) ptr_func in
    let m5 = update m4 (u32 (p + 68)) 0x01000000 in
    record k { psp_array = update k.psp_array i p; mem = m5 }
