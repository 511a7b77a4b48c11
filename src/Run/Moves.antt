-- ===== src/Run/Moves.antt =====
-- `task_start_arg` and `task_kill` (src/task.c) as steps of a coherent kernel, on every branch.
use skibios.Prelude.{
  ℕ, ◌/◌, ◌<◌, ◌≡◌, ◌≢◌, inl, inr, refl, sym, subst, Bool-cases, true, false, some, List, arith,
  ◌==◌, ltb, u8,
}
use skibios.Prelude.Loops.{find_first_bounds, find_first_before}
use skibios.Config.{Config, IsSupported}
use skibios.Error.{error_none}
use skibios.Kvar.{Kernel}
use skibios.Service.{Frame, Outcome, returns, resets, faults, hangs}
use skibios.Svc
use skibios.Ring.{elem}
use skibios.Ring.Edit.{insert, remove}
use skibios.Dispatch.{svc_dispatch, find_service, call_service, svc_loop, svc_handler}
use skibios.Dispatch.Owner.{task_create-owner}
use skibios.Macros.{registers, svc_frame, svc}
use skibios.Task.Create.{find_idle, has_hibernate_bit, svc_service_task_create}
use skibios.Task.Create.Link.{find_idle_lem}
use skibios.Task.Kill.{svc_service_task_kill}
use skibios.Api.{direct, then_return, find_object, task_start_arg, task_kill}
use skibios.Run.Quiet.{IsStill-IsQuiet}
use skibios.Run.State.{IsCoherent, IsQuiet-IsCoherent}
use skibios.Run.Create.{filled-IsCreated}
use skibios.Run.Starts.{find_idle_free, create-cases, created-IsCoherent}
use skibios.Run.Ends.{killed-IsCoherent}

-- A service that leaves its own code ends the call.
one_round :
    (c : Config) (fr fr' : Frame) (o : Outcome)
    → call_service c fr ≡ some o
    → ((x : Frame) → o ≡ returns x → x.svc_num ≡ fr.svc_num)
    → svc_handler c fr ≡ returns fr'
    → o ≡ returns fr'
unfolding svc_handler svc_loop
one_round c fr fr' (returns x) h own e = ground (arith, own x refl)
one_round c fr fr' (resets k) h own e = ground arith
one_round c fr fr' faults h own e = ground arith
one_round c fr fr' hangs h own e = ground arith

create-round :
    (c : Config) (k : Kernel) (ptr arg : ℕ) (fr : Frame)
    → svc c k Svc.create_task ptr arg 0 0 ≡ returns fr
    → svc_service_task_create c (svc_frame k Svc.create_task ptr arg 0 0) ≡ returns fr
unfolding svc svc_frame registers call_service find_service svc_dispatch
create-round c k ptr arg fr e =
    let fr0 = svc_frame k Svc.create_task ptr arg 0 0 in
    one_round c fr0 fr (svc_service_task_create c fr0) refl (λ x h. (task_create-owner c fr0 x h).0)
      e

kill-round :
    (c : Config) (k : Kernel) (pid : ℕ) (fr : Frame)
    → svc c k Svc.kill_task pid 0 0 0 ≡ returns fr
    → svc_service_task_kill c (svc_frame k Svc.kill_task pid 0 0 0) ≡ returns fr
unfolding svc svc_frame registers call_service find_service svc_dispatch svc_service_task_kill
kill-round c k pid fr e =
    let fr0 = svc_frame k Svc.kill_task pid 0 0 0 in
    one_round c fr0 fr (svc_service_task_kill c fr0) refl (λ x h. ground arith) e

-- What stands behind a call whose own result is not asked for.
then_return-inner :
    (e : ℕ) (o : Outcome) (fr : Frame)
    → then_return e o ≡ returns fr
    → (x : Frame) × (o ≡ returns x) × (fr.kernel ≡ x.kernel)
unfolding then_return
then_return-inner e (returns x) fr h = (x, refl, ground arith)
then_return-inner e (resets k) fr h = absurd (ground arith)
then_return-inner e faults fr h = absurd (ground arith)
then_return-inner e hangs fr h = absurd (ground arith)

create_step :
    (c : Config) (k : Kernel) (r : List ℕ) (ptr arg : ℕ) (fr : Frame)
    → IsSupported c
    → IsCoherent c.max_task_count k r
    → ptr ≢ 0
    → has_hibernate_bit (k.objs ptr).hibernate ≡ false
    → k.total_task_count < 65535
    → ((i : ℕ) → i < c.max_task_count → k.task_obj i ≢ ptr)
    → svc_service_task_create c (svc_frame k Svc.create_task ptr arg 0 0) ≡ returns fr
    → (r' : List ℕ) × IsCoherent c.max_task_count fr.kernel r'
unfolding svc_frame registers
create_step c k r ptr arg fr b v z awake t new e =
    let fr0 = svc_frame k Svc.create_task ptr arg 0 0 in
    let i = find_idle c k in
    elim (create-cases c fr0 fr e) [
      | inl s ↦ (
        r,
        IsQuiet-IsCoherent c.max_task_count k fr.kernel r
            (IsStill-IsQuiet k fr.kernel v.self_kill s) v,
      )
      | inr (room, f) ↦
          let bound = find_idle_free c k r v.ring v.registered.count room in
          let (free, pos, live) = find_idle_lem c k r v.ring bound in
          (
            insert i r,
            created-IsCoherent c k fr.kernel r ptr b v z new t room
                (filled-IsCreated c fr0 fr k i ptr pos awake f),
          )
    ]

pub start_step :
    (c : Config) (k : Kernel) (r : List ℕ) (ptr arg : ℕ) (fr : Frame)
    → IsSupported c
    → IsCoherent c.max_task_count k r
    → ptr ≢ 0
    → has_hibernate_bit (k.objs ptr).hibernate ≡ false
    → k.total_task_count < 65535
    → task_start_arg c k ptr arg ≡ returns fr
    → (r' : List ℕ) × IsCoherent c.max_task_count fr.kernel r'
unfolding task_start_arg find_object direct
start_step c k r ptr arg fr b v z awake t e =
    let n = c.max_task_count in
    let test = λ (i : ℕ). k.task_obj i == ptr in
    elim (Bool-cases (ltb (find_object c k ptr) n)) [
      | inl h ↦ let same : k ≡ fr.kernel = ground arith in (r, subst (λ x. IsCoherent n x r) same v)
      | inr h ↦
          let (x, inner, same) =
            then_return-inner error_none (svc c k Svc.create_task ptr arg 0 0) fr (ground arith) in
          let (r', w) =
            create_step c k r ptr arg x b v z awake t
              (λ i l. ground (arith, find_first_before n 0 test i (omega arith)))
              (create-round c k ptr arg x inner) in
          (r', subst (λ m. IsCoherent n m r') (sym same) w)
    ]

pub kill_step :
    (c : Config) (k : Kernel) (r : List ℕ) (ptr : ℕ) (fr : Frame)
    → IsSupported c
    → IsCoherent c.max_task_count k r
    → k.normal_schedule ≡ true
    → ptr ≢ 0
    → ptr ≢ k.task_obj 0
    → ptr ≢ k.task_obj k.current_task
    → ptr ≢ k.task_obj c.max_task_count
    → task_kill c k ptr ≡ returns fr
    → (r' : List ℕ) × IsCoherent c.max_task_count fr.kernel r'
unfolding task_kill find_object direct svc_frame registers
kill_step c k r ptr fr b v h z base own behind e =
    let n = c.max_task_count in
    let test = λ (i : ℕ). k.task_obj i == ptr in
    let i = find_object c k ptr in
    elim (Bool-cases (k.task_obj i == ptr)) [
      | inr g ↦ let same : k ≡ fr.kernel = ground arith in (r, subst (λ x. IsCoherent n x r) same v)
      | inl g ↦
          let (x, inner, same) =
            then_return-inner error_none (svc c k Svc.kill_task (k.task_id i) 0 0 0) fr
              (ground arith) in
          let bound = find_first_bounds n 0 test in
          let in_table : i < n = ground (arith, bound) in
          let m : elem i r ≡ true = ground (arith, v.registered.vacant i in_table) in
          let slot : u8 (k.task_id i / 65536) ≡ i =
            ground (arith, b.few_tasks, v.registered.ids i) in
          let fr0 = svc_frame k Svc.kill_task (k.task_id i) 0 0 0 in
          let w =
            killed-IsCoherent c fr0 x r i b v h m (λ q. ground arith) slot refl
              (kill-round c k (k.task_id i) x inner) in
          (remove i r, subst (λ y. IsCoherent n y (remove i r)) (sym same) w)
    ]
