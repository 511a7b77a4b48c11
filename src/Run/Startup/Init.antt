-- ===== src/Run/Startup/Init.antt =====
-- `kernel_init` (src/kernel.c) leads to a coherent kernel, whose only task is the base task.
use skibios.Prelude.{
  ℕ, zero, suc, ◌+◌, ◌/◌, ◌<◌, ◌≡◌, ◌≢◌, refl, sym, ap, subst, ◌∙◌, false, some, [], arith, ◌==◌,
  ltb, leb, ◌&&◌, if◌then◌else◌, update, u32,
}
use skibios.Prelude.Loops.{for_range, for_range_inv}
use skibios.Config.{Config, IsSupported}
use skibios.Error.{error_none}
use skibios.Kvar.{Kernel, Task, initial_kernel, task_state_idle}
use native.Mathlib.Nat.{div-eq_of_lt}
use skibios.Hardware.{write_reg, mpuctrl, mputype}
use skibios.Timer.{os_timer_init, os_timer_config}
use skibios.Boot.{
  vector_table_relocate, arch_setup, arch_kernel_init, arch_mpu_init, fixed_regions, region,
  init_tasks, kernel_init,
}
use skibios.Boot.Priority.{arch_kernel_init-arch_setup}
use skibios.Run.State.{IsCoherent}
use skibios.Run.Startup.{IsBare}
use skibios.Run.Startup.First.{start_base-IsCoherent}

-- The kernel without the memory.
abbrev forget : Kernel → Kernel
forget k = record k { mem = λ a. 0 }

relocate_same : (c : Config) (k : Kernel) → forget (vector_table_relocate c k) ≡ forget k
unfolding vector_table_relocate
relocate_same c k = refl

setup_same : (c : Config) (k : Kernel) → forget (arch_setup c k) ≡ forget k
unfolding arch_setup
setup_same c k = ground arith

no_load : (d : ℕ) → 0 / d ≡ 0
no_load zero = refl
no_load (suc d) = div-eq_of_lt (omega arith)

timer_same :
    (c : Config) (k : Kernel)
    → k.cpu_freq ≡ 0
    → (forget (os_timer_init c k 0).0 ≡ forget k) × ((os_timer_init c k 0).1 ≡ error_none)
unfolding os_timer_init os_timer_config
timer_same c k z = (ground (arith, no_load c.task_per_sec), ground (arith, no_load c.task_per_sec))

loop_same :
    (n i : ℕ) (f : ℕ → Kernel → Kernel) (k : Kernel)
    → ((j : ℕ) (m : Kernel) → forget (f j m) ≡ forget m)
    → forget (for_range n i f k) ≡ forget k
loop_same n i f k h = for_range_inv (λ m. forget m ≡ forget k) f (λ j m q. h j m ∙ q) n i k refl

region_same :
    (number address attributes : ℕ) (k : Kernel)
    → forget (region number address attributes k) ≡ forget k
unfolding region
region_same number address attributes k = refl

fixed_regions_same : (c : Config) (k : Kernel) → forget (fixed_regions c k) ≡ forget k
unfolding fixed_regions region
fixed_regions_same c k = refl

mpu_same :
    (c : Config) (k : Kernel)
    → k.mem mputype ≢ 0
    → (forget (arch_mpu_init c k).0 ≡ forget k) × ((arch_mpu_init c k).1 ≡ error_none)
unfolding arch_mpu_init
mpu_same c k z =
    let loop =
      loop_same 3 3 (λ i m. region i 0 0 m) (fixed_regions c (write_reg mpuctrl 0 k))
        (λ j m. region_same j 0 0 m) in
    let known : (k.mem mputype == 0) ≡ false = ground arith in
    rw known (loop ∙ fixed_regions_same c (write_reg mpuctrl 0 k), refl)

idle_loop :
    (n i : ℕ) (s : ℕ → ℕ) (j : ℕ)
    → for_range n i (λ x q. update q x task_state_idle) s j
      ≡ (if leb i j && ltb j (i + n) then task_state_idle else s j)
unfolding for_range
idle_loop zero i s j = ground arith
idle_loop (suc n) i s j = ground (arith, idle_loop n (i + 1) (update s i task_state_idle) j)

-- The kernel of `kernel_init` when it comes to "Initialize Process states".
abbrev pub before_tasks : Config → (ℕ → ℕ) → (ℕ → Task) → Kernel
before_tasks c mem objs =
    (os_timer_init c (arch_setup c (vector_table_relocate c (initial_kernel mem objs))) 0).0

before_tasks_same :
    (c : Config) (mem : ℕ → ℕ) (objs : ℕ → Task)
    → (forget (before_tasks c mem objs) ≡ forget (initial_kernel mem objs))
      × (arch_kernel_init c (vector_table_relocate c (initial_kernel mem objs))
          ≡ some (arch_setup c (vector_table_relocate c (initial_kernel mem objs))))
      × ((os_timer_init c (arch_setup c (vector_table_relocate c (initial_kernel mem objs))) 0).1
          ≡ error_none)
      × ((arch_setup c (vector_table_relocate c (initial_kernel mem objs))).cpu_freq ≡ 0)
before_tasks_same c mem objs =
    let k0 = initial_kernel mem objs in
    let k1 = vector_table_relocate c k0 in
    let k2 = arch_setup c k1 in
    let e1 = relocate_same c k0 in
    let e2 = setup_same c k1 ∙ e1 in
    let freq : k2.cpu_freq ≡ 0 = ap (λ k. k.cpu_freq) e2 in
    let (e3, x) = timer_same c k2 freq in
    let allowed : k1.permissions k1.current_task ≡ 0 = ap (λ k. k.permissions k.current_task) e1 in
    (e3 ∙ e2, arch_kernel_init-arch_setup c k1 allowed, x, freq)

init_tasks-IsCoherent :
    (c : Config) (k : Kernel) (mem : ℕ → ℕ) (objs : ℕ → Task)
    → IsSupported c
    → c.base_task_addr ≢ 0
    → u32 c.proc_heap_addr ≢ 0
    → k.mem mputype ≢ 0
    → forget k ≡ forget (initial_kernel mem objs)
    → (k' : Kernel) × (init_tasks c k ≡ some k') × IsCoherent c.max_task_count k' []
unfolding init_tasks
init_tasks-IsCoherent c k mem objs b z p m e =
    let n = c.max_task_count in
    let idle = for_range n 0 (λ i s. update s i task_state_idle) k.state in
    let k1 = record k { state = idle; pstack_addr = c.proc_heap_addr } in
    let k2 = (arch_mpu_init c k1).0 in
    let (e2, fine) = mpu_same c k1 m in
    let e3 : forget k2
        ≡ forget
            (record (initial_kernel mem objs) { state = idle; pstack_addr = c.proc_heap_addr }) =
      e2 ∙ ap (λ (x : Kernel). record x { state = idle; pstack_addr = c.proc_heap_addr }) e in
    let inside : (i : ℕ) → i < n → idle i ≡ task_state_idle =
      λ i l. ground (arith, idle_loop n 0 k.state i) in
    let bare : IsBare n k2 = record {
      state = λ i l. ap (λ x. x.state i) e3 ∙ inside i l;
      task_obj = λ i. ap (λ x. x.task_obj i) e3;
      jmp_list = λ i. ap (λ x. x.jmp_list i) e3;
      task_count = ap (λ x. x.task_count) e3;
      total_task_count = ap (λ x. x.total_task_count) e3;
      current_task = ap (λ x. x.current_task) e3;
      next_task = ap (λ x. x.next_task) e3;
      self_kill = ap (λ x. x.self_kill) e3;
      normal_schedule = ap (λ x. x.normal_schedule) e3;
      first_start = ap (λ x. x.first_start) e3;
      base_level = ap (λ x. x.level_stash 0) e3;
      lstash_ptr = ap (λ x. x.lstash_ptr) e3;
    } in
    let (k', s, w) =
      start_base-IsCoherent c k2 b bare z (λ q. p (sym (ap (λ x. u32 x.pstack_addr) e3) ∙ q)) in
    (k', rw fine s, w)

kernel_init_lem :
    (c : Config) (mem : ℕ → ℕ) (objs : ℕ → Task) (k1 k2 : Kernel)
    → arch_kernel_init c (vector_table_relocate c (initial_kernel mem objs)) ≡ some k1
    → (os_timer_init c k1 k1.cpu_freq).1 ≡ error_none
    → init_tasks c (os_timer_init c k1 k1.cpu_freq).0 ≡ some k2
    → kernel_init c (initial_kernel mem objs) ≡ some (k2, error_none)
unfolding kernel_init
kernel_init_lem c mem objs k1 k2 a t e = rw (a, kernel_init) (rw t (rw e refl))

-- Where the device has an MPU, neither the object of the base task nor the start of the stacks is a null
-- pointer, and that object is no other variable of the kernel, `kernel_init` returns ERROR_NONE and leaves a coherent kernel whose only live task is the
-- base task.
pub kernel_init-IsCoherent :
    (c : Config) (mem : ℕ → ℕ) (objs : ℕ → Task)
    → IsSupported c
    → c.base_task_addr ≢ 0
    → u32 c.proc_heap_addr ≢ 0
    → (before_tasks c mem objs).mem mputype ≢ 0
    → (k : Kernel) × (kernel_init c (initial_kernel mem objs) ≡ some (k, error_none))
      × IsCoherent c.max_task_count k []
kernel_init-IsCoherent c mem objs b z p m =
    let (e, arch, fine, freq) = before_tasks_same c mem objs in
    let (k, s, w) = init_tasks-IsCoherent c (before_tasks c mem objs) mem objs b z p m e in
    let k1 = arch_setup c (vector_table_relocate c (initial_kernel mem objs)) in
    (
      k,
      kernel_init_lem c mem objs k1 k arch
          (subst (λ q. (os_timer_init c k1 q).1 ≡ error_none) (sym freq) fine)
          (subst (λ q. init_tasks c (os_timer_init c k1 q).0 ≡ some k) (sym freq) s),
      w,
    )
