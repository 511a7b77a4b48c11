-- ===== src/Task/Stack/Bounds.antt =====
-- Where the preparation of a new task's stack writes (src/service/svr_task.c and
-- src/arch/arm-m3m4/os_util.c).
use skibios.Prelude.{
  ℕ, zero, suc, ◌+◌, ◌-◌, ◌*◌, ◌/◌, ◌≤◌, ◌<◌, ◌≡◌, ap, ◌∙◌, ◌⊎◌, arith, update, u32,
}
use skibios.Prelude.Loops.{for_range}
use skibios.Config.{Config}
use skibios.Kvar.{Kernel}
use skibios.Task.Stack.{place_stack, clear_stack, frame_base, arch_task_stack_init}

-- The first address of the stack of slot `i`.
abbrev pub stack_start : Config → Kernel → ℕ → ℕ
stack_start c k i = k.pstack_addr + i * c.task_stack_size * 4

abbrev pub Outside : ℕ → ℕ → ℕ → Type 0
Outside start size a = (a < start) ⊎ (start + size ≤ a)

clear_lem :
    (n first p a : ℕ) (m : ℕ → ℕ)
    → p + 4 * (first + n) ≤ 4294967296
    → Outside p (4 * (first + n)) a
    → for_range n first (λ j x. update x (u32 (p + 4 * j)) 0) m a ≡ m a
unfolding for_range
clear_lem zero first p a m h o = ground arith
clear_lem (suc n) first p a m h o =
    ground (arith, clear_lem n (first + 1) p a (update m (u32 (p + 4 * first)) 0) (omega arith))

cleared_lem :
    (c : Config) (k : Kernel) (i a z : ℕ)
    → k.psp_array i ≡ z
    → z + c.task_stack_size * 4 ≤ 4294967296
    → Outside z (c.task_stack_size * 4) a
    → (clear_stack c k i).mem a ≡ k.mem a
unfolding clear_stack
cleared_lem c k i a z e b o =
    rw e (clear_lem (c.task_stack_size / 4) 0 z a k.mem (omega arith) (ground arith))

frame_lem :
    (c : Config) (k : Kernel) (i ptr_func arg a p : ℕ)
    → frame_base c (k.psp_array i) ≡ p
    → p + 76 ≤ 4294967296
    → Outside p 76 a
    → (arch_task_stack_init c k i ptr_func arg).mem a ≡ k.mem a
unfolding arch_task_stack_init
frame_lem c k i ptr_func arg a p e b o = rw e (ground arith)

-- Only words of its own stack are written when the stack of a new task is cleared and its first frame is
-- laid out: where the stack has at least 19 words and lies within the 32-bit address space, every
-- word outside it stays as it is, and the stack pointer then stands 76 bytes below its end.
pub stack_init-Outside :
    (c : Config) (k : Kernel) (i ptr_func arg a : ℕ)
    → 19 ≤ c.task_stack_size
    → stack_start c k i + c.task_stack_size * 4 ≤ 4294967296
    → Outside (stack_start c k i) (c.task_stack_size * 4) a
    → ((arch_task_stack_init c (clear_stack c (place_stack c k i) i) i ptr_func arg).mem a
        ≡ k.mem a)
      × ((arch_task_stack_init c (clear_stack c (place_stack c k i) i) i ptr_func arg).psp_array i
            + 76
          ≡ stack_start c k i + c.task_stack_size * 4)
unfolding place_stack clear_stack arch_task_stack_init
stack_init-Outside c k i ptr_func arg a h b o =
    let z = stack_start c k i in
    let size = c.task_stack_size in
    let k1 = place_stack c k i in
    let placed : k1.psp_array i ≡ z = ground arith in
    let base : frame_base c z ≡ z + size * 4 - 76 = omega arith in
    let kept : (clear_stack c k1 i).psp_array i ≡ z = ground arith in
    let top : frame_base c ((clear_stack c k1 i).psp_array i) ≡ z + size * 4 - 76 =
      ap (frame_base c) kept ∙ base in
    (
      frame_lem c (clear_stack c k1 i) i ptr_func arg a (z + size * 4 - 76) top (omega arith)
            (ground arith)
          ∙ cleared_lem c k1 i a z placed b o
          ∙ ground arith,
      ground arith,
    )
