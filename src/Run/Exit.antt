-- ===== src/Run/Exit.antt =====
-- A task that returns ends itself: `resolve_end` (src/service/svr_task.c), the service KILL_TASK and the
-- service HAND_OVER that follows it.
use skibios.Prelude.{
  ℕ, ◌+◌, ◌/◌, ◌<◌, ◌≡◌, ◌≢◌, if◌then◌else◌, sub16, sym, ap, subst, ◌∙◌, true, false, not, List,
  ◌∷◌, arith, ◌==◌, u8,
}
use skibios.Config.{Config, IsSupported}
use skibios.Kvar.{Kernel, task_state_idle}
use skibios.Hardware.{trigger_scheduler, enable_scheduler}
use skibios.Error.{error_none}
use skibios.Svc.{hand_over}
use skibios.Service.{Frame, returns}
use skibios.Svc
use skibios.Ring.{elem}
use skibios.Ring.Walk.{Chain-Exact}
use skibios.Ring.Split.{IsRing-congr, elem-Below}
use skibios.Ring.Edit.{remove}
use skibios.Ring.Members.{elem-remove}
use skibios.Task.Kill.{detach_task, release_level, recount, unlink_task, svc_service_task_kill}
use skibios.Task.Kill.Unlink.{find_previous_bound}
use skibios.System.{svc_service_hand_over}
use skibios.Dispatch.{svc_dispatch, find_service, call_service, svc_loop, svc_handler}
use skibios.Macros.{registers, svc_frame, svc}
use skibios.Api.{resolve_end}
use skibios.Run.State.{IsRegistered-congr, IsCoherent}
use skibios.Run.Kill.{IsKilled, task_kill-IsKilled}
use skibios.Run.Ends.{killed-IsRegistered, killed-IsRing, successor}

-- The two services, one after the other.
exit_lem :
    (c : Config) (k : Kernel) (pid : ℕ) (fr : Frame)
    → svc_service_task_kill c (svc_frame k Svc.kill_task pid 1 0 0) ≡ returns fr
    → svc c k Svc.kill_task pid 1 0 0 ≡ svc_service_hand_over fr
unfolding svc svc_frame registers svc_handler svc_loop call_service find_service svc_dispatch
    svc_service_task_kill svc_service_hand_over trigger_scheduler
exit_lem c k pid fr e = ground arith

-- The kernel after HAND_OVER in the middle of a kill.
handed_over :
    (fr fr' : Frame)
    → fr.kernel.self_kill ≡ true
    → svc_service_hand_over fr ≡ returns fr'
    → (fr'.kernel.jmp_list ≡ fr.kernel.jmp_list)
      × (fr'.kernel.state ≡ fr.kernel.state)
      × (fr'.kernel.next_task ≡ fr.kernel.next_task)
      × (fr'.kernel.task_obj ≡ fr.kernel.task_obj)
      × (fr'.kernel.task_id ≡ fr.kernel.task_id)
      × (fr'.kernel.task_count ≡ fr.kernel.task_count)
      × (fr'.kernel.self_kill ≡ false)
      × (fr'.kernel.normal_schedule ≡ false)
unfolding svc_service_hand_over trigger_scheduler
handed_over fr fr' h e = ground arith

kill_returns :
    (c : Config) (fr : Frame)
    → u8 (fr.arguments 0 / 65536) < c.max_task_count
    → (fr' : Frame) × (svc_service_task_kill c fr ≡ returns fr')
unfolding svc_service_task_kill
kill_returns c fr l =
    let i = u8 (fr.arguments 0 / 65536) in
    let itself = fr.arguments 1 == 1 in
    let k1 = detach_task (release_level c fr.kernel i) i in
    let k2 = record k1 {
      self_kill = if itself then true else k1.self_kill;
      task_count = sub16 k1.task_count 1;
    } in
    (
      record fr {
        kernel = enable_scheduler (recount c (unlink_task k2 i));
        svc_num = if itself then hand_over else fr.svc_num;
        error = error_none;
      },
      ground (arith, l),
    )

pub exited-IsCoherent :
    (c : Config) (k : Kernel) (fr : Frame) (r : List ℕ)
    → IsSupported c
    → IsCoherent c.max_task_count k r
    → k.normal_schedule ≡ true
    → k.current_task ≢ 0
    → resolve_end c k ≡ returns fr
    → IsCoherent c.max_task_count fr.kernel (remove k.current_task r)
unfolding resolve_end svc_frame registers
exited-IsCoherent c k fr r b v h z e =
    let n = c.max_task_count in
    let i = k.current_task in
    let fr0 = svc_frame k Svc.kill_task (k.task_id i) 1 0 0 in
    let m : elem i r ≡ true = ground (arith, v.next, v.switched h) in
    let few = elem-Below n i (0 ∷ r) v.ring.below (ground arith) in
    let a : u8 (k.task_id i / 65536) ≡ i = ground (arith, b.few_tasks, v.registered.ids i) in
    let (fr1, e1) = kill_returns c fr0 (ground (arith, a, few)) in
    let e2 : svc_service_hand_over fr1 ≡ returns fr = sym (exit_lem c k (k.task_id i) fr1 e1) ∙ e in
    let w : IsKilled k fr1.kernel i true =
      subst (λ x. IsKilled k fr1.kernel x true) a (task_kill-IsKilled c fr0 fr1 e1) in
    let o = handed_over fr1 fr (ground (arith, w.self_kill)) e2 in
    let next = w.next_task (find_previous_bound n k r i b.few_tasks v.ring m) in
    let exact =
      Chain-Exact n k.jmp_list 0 r i b.few_tasks v.ring.below v.ring.chain (ground arith) in
    let s = successor n k.jmp_list 0 r i b.few_tasks v.ring.below v.ring.chain m in
    let member = elem-remove k.jmp_list 0 i r (u8 (i + k.jmp_list i)) v.ring.chain in
    let to : fr.kernel.next_task ≡ u8 (i + k.jmp_list i) =
      ground (arith, next, w.self_kill, v.switched h, exact, o.2) in
    record {
      ring =
          IsRing-congr n fr1.kernel fr.kernel (remove i r) o.0
            (λ j l. ap (λ g. not (g j == task_state_idle)) o.1)
            (killed-IsRing c fr0 fr1 r i b v.ring m a e1);
      registered =
          IsRegistered-congr n fr1.kernel fr.kernel (remove i r) o.3 o.4 o.5
            (killed-IsRegistered n k fr1.kernel r i true b.few_tasks v.ring m w v.registered);
      next = ground (arith, to, s, member);
      switched = λ q. ground (arith, o.7);
      self_kill = o.6;
      alone = λ j l q. ground (arith, ap (λ g. g j) o.1, w.state j, v.alone j l);
    }
