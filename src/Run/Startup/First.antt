-- ===== src/Run/Startup/First.antt =====
-- `task_init` and `task_start` of the base task, in the order of `kernel_init` (src/kernel.c).
use skibios.Prelude.{ℕ, ◌≡◌, ◌≢◌, ap, ◌∙◌, false, some, [], arith, ◌==◌, ltb, dec_lt, update, u32}
use skibios.Prelude.Loops.{find_first_hit}
use skibios.Config.{Config, IsSupported}
use skibios.Error.{error_none}
use skibios.Kvar.{Kernel, Task}
use skibios.Service.{Frame, returns}
use skibios.Svc
use skibios.Task.Stack.{place_stack, clear_stack}
use skibios.Task.Create.{link_task, attach_task, svc_service_task_create}
use skibios.Dispatch.{svc_dispatch, find_service, call_service, svc_loop, svc_handler}
use skibios.Macros.{registers, svc_frame, svc}
use skibios.Api.{direct, then_return, find_object, task_init, task_start}
use skibios.Boot.{after, start_base}
use skibios.Run.Quiet.{IsStill, IsStill-IsQuiet}
use skibios.Run.State.{IsCoherent, IsQuiet-IsCoherent}
use skibios.Run.Create.{filled_same}
use skibios.Run.Startup.{IsBare, filled_base, created_base, attached-IsCoherent}

-- No slot holds the base task yet.
nothing_runs :
    (c : Config) (k : Kernel) (ptr : ℕ)
    → ((i : ℕ) → k.task_obj i ≡ 0)
    → ptr ≢ 0
    → ltb (find_object c k ptr) c.max_task_count ≡ false
unfolding find_object
nothing_runs c k ptr h z = elim (dec_lt (find_object c k ptr) c.max_task_count) [
  | yes l ↦
      let hit = find_first_hit c.max_task_count 0 (λ i. k.task_obj i == ptr) (omega arith) in
      absurd (ground (arith, hit, h (find_object c k ptr)))
  | no l ↦ ground arith
]

-- The base task as `kernel_init` sets it up.
abbrev base_task : Config → Task → Task
base_task c t = record t {
  task_id = 0;
  hibernate = 0;
  op1 = 0;
  op2 = 0;
  value = 0;
  ptr_func = c.base_task_func;
  priority = 0;
}

abbrev with_base : Config → Kernel → Kernel
with_base c k = record k {
  objs = update k.objs c.base_task_addr (base_task c (k.objs c.base_task_addr));
}

create_returns :
    (c : Config) (k : Kernel) (ptr : ℕ) (fr : Frame)
    → ltb (find_object c k ptr) c.max_task_count ≡ false
    → svc_service_task_create c (svc_frame k Svc.create_task ptr 0 0 0) ≡ returns fr
    → fr.svc_num ≡ Svc.create_task
    → task_start c k ptr ≡ returns (record fr { error = error_none })
unfolding task_start then_return svc svc_frame registers svc_handler svc_loop call_service
    find_service svc_dispatch
create_returns c k ptr fr h e s = ground arith

started_base :
    (c : Config) (k : Kernel)
    → IsSupported c
    → IsBare c.max_task_count k
    → c.base_task_addr ≢ 0
    → u32 k.pstack_addr ≢ 0
    → (fr : Frame) × (task_start c (with_base c k) c.base_task_addr ≡ returns fr)
      × IsCoherent c.max_task_count fr.kernel []
      × (fr.kernel.current_task ≡ 0)
unfolding svc_frame registers
started_base c k b v z p =
    let n = c.max_task_count in
    let ptr = c.base_task_addr in
    let m = with_base c k in
    let w : IsBare n m = record {
      state = v.state;
      task_obj = v.task_obj;
      jmp_list = v.jmp_list;
      task_count = v.task_count;
      total_task_count = v.total_task_count;
      current_task = v.current_task;
      next_task = v.next_task;
      self_kill = v.self_kill;
      normal_schedule = v.normal_schedule;
      first_start = v.first_start;
      base_level = v.base_level;
      lstash_ptr = v.lstash_ptr;
    } in
    let fr0 = svc_frame m Svc.create_task ptr 0 0 0 in
    let (fr, e, s) = filled_base c m fr0 ptr b.some_task w (ground arith) in
    let created : svc_service_task_create c fr0 ≡ returns fr =
      created_base c fr0 b.some_task w (ground arith) p b.base_object ∙ e in
    let same = filled_same c fr0 fr m 0 ptr e in
    (
      record fr { error = error_none },
      create_returns c m ptr fr (nothing_runs c m ptr w.task_obj z) created s,
      attached-IsCoherent c m fr.kernel ptr b w z (ground arith) same,
      unfold place_stack clear_stack link_task attach_task in
          ap (λ x. x.current_task) same ∙ w.current_task,
    )

-- `task_init` and `task_start` of the base task, on a kernel without tasks.
pub start_base-IsCoherent :
    (c : Config) (k : Kernel)
    → IsSupported c
    → IsBare c.max_task_count k
    → c.base_task_addr ≢ 0
    → u32 k.pstack_addr ≢ 0
    → (k' : Kernel) × (start_base c k ≡ some k') × IsCoherent c.max_task_count k' []
unfolding start_base task_init direct after
start_base-IsCoherent c k b v z p =
    let (fr, e, w, now) = started_base c k b v z p in
    let idle = nothing_runs c k c.base_task_addr v.task_obj z in
    let k' = record fr.kernel {
      permissions = update fr.kernel.permissions 0 0xFFFF;
      current_task = 0;
    } in
    let still : IsStill fr.kernel k' = ground (arith, now) in
    (
      k',
      ground (arith, idle, e),
      IsQuiet-IsCoherent c.max_task_count fr.kernel k' []
          (IsStill-IsQuiet fr.kernel k' w.self_kill still) w,
    )
