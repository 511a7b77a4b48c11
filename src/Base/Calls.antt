-- ===== src/Base/Calls.antt =====
-- The calls that make up an invocation of the base task: `base_run` and `base_release` of
-- src/permissions.c, with the services that follow each other, and the middle of `BaseTask`.
use skibios.Prelude.{ℕ, ◌<◌, ◌≡◌, ◌≢◌, refl, false, arith, update}
use skibios.Config.{Config}
use skibios.Error.{error_none}
use skibios.Kvar.{Kernel, task_state_sleep}
use skibios.Hardware.{trigger_scheduler}
use skibios.Service.{Frame, returns}
use skibios.Svc
use skibios.Dispatch.{svc_dispatch, find_service, call_service, svc_loop, svc_handler}
use skibios.Macros.{registers, svc_frame, svc}
use skibios.Task.Promote.{
  enter_promotion, mutex_owner, promote_owner, svc_service_priority_promote, leave_promotion,
  demote_current, release_holder, svc_service_priority_demote,
}
use skibios.Permission.{find_task, svc_service_invoke_base, svc_service_release_base}
use skibios.System.{svc_service_hand_over}
use skibios.Api.{base_run, loaded_word, base_release}
use skibios.Api.Refine.{grant_permission_lem}
use skibios.Base.{with_result, access_code, grant_and_release, serve}

-- The kernel while the caller waits.
abbrev pub invoked : Config → Kernel → ℕ → Kernel
invoked c k a = trigger_scheduler (
    promote_owner
      (enter_promotion (record k { invocated_task = k.task_id k.current_task; invocated_args = a }))
      c.base_mutex_addr)

pub base_run_lem :
    (c : Config) (k : Kernel) (a : ℕ)
    → k.current_task ≢ 0
    → mutex_owner k c.base_mutex_addr < c.max_task_count
    → base_run c k a
      ≡ returns (record (svc_frame k Svc.invoke_base a 0 0 0) {
        kernel = invoked c k a;
        arguments = update (registers a 0 0 0) 0 c.base_mutex_addr;
        svc_num = Svc.priority_promote;
        error = error_none;
      })
unfolding base_run svc svc_frame registers svc_handler svc_loop call_service find_service
    svc_dispatch svc_service_invoke_base svc_service_priority_promote
base_run_lem c k a h b = ground arith

-- The kernel that the base task leaves, when task `i` has invoked it.
abbrev pub released : Config → Kernel → ℕ → ℕ → Kernel
released c k i error =
    let m = release_holder c (
      leave_promotion (
        demote_current (record k {
          hib_value = update k.hib_value i error;
          invocated_task = 0;
          invocated_args = 0;
        }))) in
    trigger_scheduler
      (record m { state = update m.state m.current_task task_state_sleep; normal_schedule = false })

release_rounds :
    (c : Config) (fr : Frame) (i : ℕ)
    → fr.svc_num ≡ Svc.release_base
    → fr.kernel.current_task ≡ 0
    → find_task c fr.kernel fr.kernel.invocated_task ≡ i
    → i < c.max_task_count
    → svc_handler c fr
      ≡ svc_service_hand_over (record fr {
        kernel = release_holder c (
            leave_promotion (
              demote_current (record fr.kernel {
                hib_value = update fr.kernel.hib_value i (fr.arguments 0);
                invocated_task = 0;
                invocated_args = 0;
              })));
        svc_num = Svc.hand_over;
        error = error_none;
      })
unfolding svc_handler svc_loop call_service find_service svc_dispatch svc_service_release_base
    svc_service_priority_demote svc_service_hand_over
release_rounds c fr i n h f l = ground (arith, h, f, l)

released-self_kill :
    (c : Config) (k : Kernel)
    → (release_holder c (leave_promotion (demote_current k))).self_kill ≡ k.self_kill
unfolding release_holder leave_promotion demote_current
released-self_kill c k = ground arith

base_release_lem :
    (c : Config) (k : Kernel) (i error above : ℕ)
    → k.current_task ≡ 0
    → k.self_kill ≡ false
    → find_task c k k.invocated_task ≡ i
    → i < c.max_task_count
    → base_release c k error above
      ≡ returns
          (record (svc_frame
            (released c k i (loaded_word error above))
            Svc.hand_over
            (loaded_word error above)
            0
            0
            0) { error = error_none })
unfolding base_release svc svc_frame registers svc_service_hand_over
base_release_lem c k i error above h s f l =
    let e =
      release_rounds c (svc_frame k Svc.release_base (loaded_word error above) 0 0 0) i refl h f
        l in
    ground (
      arith,
      e,
      released-self_kill c (record k {
        hib_value = update k.hib_value i (loaded_word error above);
        invocated_task = 0;
        invocated_args = 0;
      }),
    )

pub served :
    (c : Config) (k : Kernel) (i above task_id args : ℕ)
    → k.current_task ≡ 0
    → k.self_kill ≡ false
    → find_task c k (k.mem task_id) ≡ i
    → find_task c k k.invocated_task ≡ i
    → i < c.max_task_count
    → access_code k args ≢ 0
    → (fr : Frame) × (serve c above k task_id args ≡ returns fr)
      × (fr.error ≡ error_none)
      × (fr.kernel
          ≡ released c
              (record k { permissions = update k.permissions i (access_code k args) })
              i
              (loaded_word error_none above))
unfolding serve grant_and_release with_result find_task
served c k i above task_id args h s f f2 l z =
    let m = record k { permissions = update k.permissions i (access_code k args) } in
    let e1 = grant_permission_lem c k i (k.mem task_id) (access_code k args) h f l in
    let e2 = base_release_lem c m i error_none above h s f2 l in
    (
      record (svc_frame (released c m i (loaded_word error_none above)) Svc.hand_over
          (loaded_word error_none above) 0 0 0) { error = error_none },
      ground (arith, e1, e2),
      refl,
      refl,
    )
