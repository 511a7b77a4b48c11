-- ===== src/Run/Startup.antt =====
-- The creation of the first task, in slot 0, on a kernel without tasks.
pub mod First
pub mod Init
use skibios.Prelude.{
  ℕ, zero, suc, ◌+◌, ◌-◌, ◌*◌, ◌/◌, ◌<◌, ◌≤◌, ◌≡◌, ◌≢◌, refl, sym, ap, subst, ◌∙◌, true, false,
  some, none, List, [], ◌∷◌, arith, ◌==◌, ltb, dec_lt, leb, ◌&&◌, if◌then◌else◌, update, u8, u16,
  u32, bit_or, bit_and,
}
use skibios.Prelude.Loops.{
  for_range, for_range_inv, find_first, find_first_bounds, find_first_unique, find_first_hit,
}
use skibios.Config.{Config, IsSupported}
use skibios.Error.{error_none}
use skibios.Kvar.{Kernel, Task, initial_kernel, task_state_idle, task_state_sleep}
use skibios.Hardware.{write_reg, mputype}
use skibios.Service.{Frame, Outcome, returns, reply}
use skibios.Ring.{IsRing, elem}
use skibios.Timer.{os_timer_init, os_timer_config}
use skibios.Task.Levels.{Probe, found, search_level, search_fuel, record_level}
use skibios.Task.Stack.{place_stack, clear_stack}
use skibios.Task.Create.{
  find_idle, link_task, attach_task, fill_slot, finish_create, svc_service_task_create,
}
use skibios.Dispatch.{svc_dispatch, find_service, call_service, svc_loop, svc_handler}
use skibios.Macros.{registers, svc_frame, svc}
use skibios.Api.{direct, then_return, find_object, task_init, task_start}
use skibios.Boot.{
  after, vector_table_relocate, arch_setup, arch_kernel_init, arch_mpu_init, fixed_regions, region,
  start_base, init_tasks, kernel_init,
}
use skibios.Boot.Priority.{arch_kernel_init-arch_setup}
use skibios.Run.Quiet.{IsStill, IsStill-IsQuiet}
use skibios.Run.State.{IsRegistered, IsCoherent, IsQuiet-IsCoherent}
use skibios.Run.Create.{forget, attached, counted, filled_same}

-- The kernel before its first task.
pub record IsBare (n : ℕ) (k : Kernel) : Type 0 where
  pub state : (i : ℕ) → i < n → k.state i ≡ task_state_idle
  pub task_obj : (i : ℕ) → k.task_obj i ≡ 0
  pub jmp_list : (i : ℕ) → k.jmp_list i ≡ 0
  pub task_count : k.task_count ≡ 0
  pub total_task_count : k.total_task_count ≡ 0
  pub current_task : k.current_task ≡ 0
  pub next_task : k.next_task ≡ 0
  pub self_kill : k.self_kill ≡ false
  pub normal_schedule : k.normal_schedule ≡ true
  pub first_start : k.first_start ≡ false
  pub base_level : k.level_stash 0 ≡ 0
  pub lstash_ptr : k.lstash_ptr ≡ 1

-- The base level is found at once.
base_level_found :
    (f : ℕ) (stash : ℕ → ℕ) → stash 0 ≡ 0 → search_level (suc f) stash 0 0 1 0 ≡ found
unfolding search_level
base_level_found f stash h = ground arith

base_level_recorded :
    (m : Kernel)
    → m.prio_current 0 ≡ 0
    → m.level_stash 0 ≡ 0
    → m.lstash_ptr ≡ 1
    → record_level m 0 ≡ some m
unfolding record_level
base_level_recorded m p h l = ground (arith, base_level_found 256 m.level_stash h, l, p)

-- The first creation, in slot 0.
pub filled_base :
    (c : Config) (k : Kernel) (fr : Frame) (ptr : ℕ)
    → 0 < c.max_task_count
    → IsBare c.max_task_count k
    → (k.objs ptr).priority ≡ 0
    → (fr' : Frame) × (fill_slot c fr (place_stack c k 0) 0 ptr ≡ returns fr')
      × (fr'.svc_num ≡ fr.svc_num)
unfolding fill_slot
filled_base c k fr ptr l v p =
    let m = attached c k 0 ptr in
    let kept : (m.prio_current 0 ≡ 0) × (m.level_stash 0 ≡ 0) × (m.lstash_ptr ≡ 1) =
      unfold place_stack clear_stack link_task attach_task in
      ground (arith, v.base_level, v.lstash_ptr) in
    let stash : (place_stack c k 0).lstash_ptr ≡ 1 =
      unfold place_stack in ground (arith, v.lstash_ptr) in
    let level = base_level_recorded m kept.0 kept.1 kept.2 in
    (
      record fr { kernel = finish_create c m 0 (fr.arguments 1); error = error_none },
      ground (arith, level, kept, stash),
      refl,
    )

pub created_base :
    (c : Config) (fr : Frame)
    → 0 < c.max_task_count
    → IsBare c.max_task_count fr.kernel
    → (fr.kernel.objs (fr.arguments 0)).priority ≡ 0
    → u32 fr.kernel.pstack_addr ≢ 0
    → c.is_kernel_var (fr.arguments 0) ≡ false
    → svc_service_task_create c fr ≡ fill_slot c fr (place_stack c fr.kernel 0) 0 (fr.arguments 0)
unfolding svc_service_task_create find_idle place_stack
created_base c fr l v p z apart =
    let k = fr.kernel in
    let n = c.max_task_count in
    let slot : find_first n 0 (λ i. k.state i == task_state_idle) ≡ 0 =
      find_first_unique n 0 (λ i. k.state i == task_state_idle) 0 (omega arith) (omega arith)
        (ground (arith, v.state 0)) (λ m x y. absurd (omega arith)) in
    ground (arith, slot, v.task_count, v.first_start)

-- The tables after it.
pub attached-IsCoherent :
    (c : Config) (k k' : Kernel) (ptr : ℕ)
    → IsSupported c
    → IsBare c.max_task_count k
    → ptr ≢ 0
    → (k.objs ptr).hibernate ≡ 0
    → forget k' ≡ forget (counted (attached c k 0 ptr))
    → IsCoherent c.max_task_count k' []
unfolding place_stack clear_stack link_task attach_task
attached-IsCoherent c k k' ptr b v z h e =
    let state : k'.state ≡ update k.state 0 task_state_sleep = ap (λ x. x.state) e ∙ ground arith in
    let obj : k'.task_obj ≡ update k.task_obj 0 ptr = ap (λ x. x.task_obj) e in
    let id : k'.task_id ≡ update k.task_id 0 (bit_or 0 (k.total_task_count + 1)) =
      ap (λ x. x.task_id) e in
    let jmp : k'.jmp_list ≡ update k.jmp_list 0 0 = ap (λ x. x.jmp_list) e in
    let normal : k'.normal_schedule ≡ true = ap (λ x. x.normal_schedule) e ∙ v.normal_schedule in
    let now : k'.current_task ≡ 0 = ap (λ x. x.current_task) e ∙ v.current_task in
    let to : k'.next_task ≡ 0 = ap (λ x. x.next_task) e ∙ v.next_task in
    let count : k'.task_count ≡ u16 (k.task_count + 1) = ap (λ x. x.task_count) e in
    let one : bit_or 0 (k.total_task_count + 1) ≡ 1 =
      ap (λ x. bit_or 0 (x + 1)) v.total_task_count in
    record {
      ring = record {
        chain = ground (arith, ap (λ f. f 0) jmp);
        below = ground (arith, b.some_task);
        live = λ i l. ground (arith, ap (λ f. f i) state, v.state i l);
        unlinked = λ i l. ground (arith, ap (λ f. f i) jmp, v.jmp_list i);
      };
      registered = record {
        count = ground (arith, count, v.task_count);
        ids = λ i l. ground (arith, ap (λ f. f i) id, one);
        real = λ i l. ground (arith, ap (λ f. f i) obj);
        vacant = λ i l q. ground (arith, ap (λ f. f i) obj, v.task_obj i);
        unique = λ i j p q w. ground arith;
      };
      next = ground (arith, to);
      switched = λ q. to ∙ sym now;
      self_kill = ap (λ x. x.self_kill) e ∙ v.self_kill;
      alone = λ i l q. ground (arith, ap (λ f. f i) state, v.state i l);
    }
