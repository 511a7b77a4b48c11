-- ===== src/Share/Lock.antt =====
-- `spin_lock` of src/share.c, over `mutex_lock` of src/arch/arm-m3m4/mutex.S and the services that the loop
-- calls.
use skibios.Prelude.{
  ℕ, zero, suc, ◌+◌, ◌-◌, ◌%◌, ◌≤◌, ◌<◌, ◌≡◌, refl, ap, ◌∙◌, ◌⊎◌, inl, inr, Bool-cases, false, not,
  ◌&&◌, some, arith, ◌==◌, dec_lt, if◌then◌else◌, u8,
}
use skibios.Config.{Config}
use skibios.Error.{error_none, error_resource_locked_indefinetly}
use skibios.Kvar.{Kernel}
use skibios.Hardware.{write_reg, trigger_scheduler}
use skibios.Svc
use skibios.Dispatch.{svc_dispatch, find_service, call_service, svc_loop, svc_handler}
use skibios.Task.Promote.{enter_promotion, promote_owner, mutex_owner, svc_service_priority_promote}
use skibios.Macros.{registers, svc_frame, svc}
use skibios.Boot.{after}
use skibios.Share.{
  World, mutex_lock, is_outranked, broken, handed, hand_over_pass, promote_pass, spin_pass,
  spin_loop, spin_lock,
}
use skibios.Share.Semaphores.{hand_over_lem}

-- At most one promotion is in force, and the owner that the mutex names is a slot.
abbrev pub IsSettled : Config → Kernel → ℕ → Type 0
IsSettled c k mutex = (k.max_level ≤ 128) × (mutex_owner k mutex < c.max_task_count)

-- This holds whenever the caller runs again.
abbrev pub IsCalm : Config → World → ℕ → Type 0
IsCalm c w mutex =
    (turn : ℕ) (m : Kernel) → IsSettled c (w.away turn m) mutex × ((w.lent turn m).max_level ≤ 128)

-- The caller's id stands in the mutex.
abbrev pub Holds : Kernel → ℕ → Type 0
Holds k mutex = k.mem mutex ≡ k.task_id k.current_task

promote_returns :
    (c : Config) (k : Kernel) (mutex : ℕ)
    → mutex_owner k mutex < c.max_task_count
    → (k1 : Kernel) × (after (svc c k Svc.priority_promote mutex 0 0 0) ≡ some k1)
unfolding svc svc_frame registers svc_handler svc_loop call_service find_service svc_dispatch
    svc_service_priority_promote promote_owner enter_promotion trigger_scheduler after
promote_returns c k mutex b =
    (trigger_scheduler (promote_owner (enter_promotion k) mutex), ground (arith, b))

hand_over_handed :
    (c : Config) (w : World) (turn : ℕ) (k : Kernel)
    → (m : Kernel) × (hand_over_pass c w turn k ≡ handed (w.away turn m))
unfolding hand_over_pass
hand_over_handed c w turn k =
    let (m, h, keep, top) = hand_over_lem c w turn k in (m, ground (arith, h))

promote_handed :
    (c : Config) (w : World) (turn : ℕ) (k : Kernel) (mutex : ℕ)
    → mutex_owner k mutex < c.max_task_count
    → (m : Kernel) × (promote_pass c w turn k mutex ≡ handed (w.away turn m))
unfolding promote_pass
promote_handed c w turn k mutex b =
    let (k1, e) = promote_returns c k mutex b in
    let (m, h) = hand_over_handed c w turn (w.lent turn k1) in (m, ground (arith, e, h))

-- A pass takes the mutex or hands over.
pass-cases :
    (c : Config) (w : World) (turn : ℕ) (k : Kernel) (mutex : ℕ)
    → IsSettled c k mutex
    → ((k' : Kernel) × (spin_pass c w turn k mutex ≡ broken k') × Holds k' mutex)
      ⊎ ((m : Kernel) × (spin_pass c w turn k mutex ≡ handed (w.away turn m)))
unfolding spin_pass mutex_lock
pass-cases c w turn k mutex b = elim (Bool-cases ((k.mem mutex % 256 == 0) && not (w.lost turn))) [
  | inl e ↦ inl (write_reg mutex (k.task_id k.current_task) k, ground arith, ground arith)
  | inr e ↦ elim (Bool-cases (is_outranked k (u8 (mutex_owner k mutex)))) [
    | inl o ↦ let (m, h) = promote_handed c w turn k mutex b.1 in inr (m, ground (arith, h))
    | inr o ↦ let (m, h) = hand_over_handed c w turn k in inr (m, ground (arith, h))
  ]
]

free_pass :
    (c : Config) (w : World) (turn : ℕ) (k : Kernel) (mutex : ℕ)
    → k.mem mutex % 256 ≡ 0
    → w.lost turn ≡ false
    → (k' : Kernel) × (spin_pass c w turn k mutex ≡ broken k') × Holds k' mutex
unfolding spin_pass mutex_lock
free_pass c w turn k mutex h l =
    (write_reg mutex (k.task_id k.current_task) k, ground arith, ground arith)

-- How `spin_lock` ends: with the mutex, or with an error.
abbrev pub IsEnded : Kernel → ℕ → ℕ → Type 0
IsEnded k mutex error =
    ((error ≡ error_none) × Holds k mutex) ⊎ (error ≡ error_resource_locked_indefinetly)

loop_ends :
    (c : Config) (w : World) (mutex : ℕ)
    → IsCalm c w mutex
    → (fuel loop retry turn : ℕ) (k : Kernel) → IsSettled c k mutex
    → retry - loop < fuel
    → loop ≤ retry
    → (k' : Kernel) × (error : ℕ) × (spin_loop c w fuel loop retry turn k mutex ≡ some (k', error))
      × IsEnded k' mutex error
unfolding spin_loop
loop_ends c w mutex calm zero loop retry turn k b f l = absurd (omega arith)
loop_ends c w mutex calm (suc fuel) loop retry turn k b f l = elim (dec_lt loop retry) [
  | no q ↦ (k, error_resource_locked_indefinetly, ground arith, inr refl)
  | yes q ↦ elim (pass-cases c w turn k mutex b) [
    | inl (k', e, h) ↦ (k', error_none, ground (arith, e), inl (refl, h))
    | inr (m, e) ↦
        let (k', error, r, h) =
          loop_ends c w mutex calm fuel (loop + 1) retry (turn + 1) (w.away turn m) (calm turn m).0
            (omega arith) (omega arith) in
        (k', error, ground (arith, e, r), h)
  ]
]

-- Where at most one promotion is in force whenever the caller runs, and the mutex then names a slot as its
-- owner, `spin_lock` returns within one pass for
-- each of the `retry` rounds, and one more: with ERROR_NONE and the caller's id in the mutex, or
-- with ERROR_RESOURCE_LOCKED_INDEFINETLY.
pub spin_lock-IsEnded :
    (c : Config) (w : World) (k : Kernel) (mutex retry : ℕ)
    → IsCalm c w mutex
    → IsSettled c k mutex
    → (k' : Kernel) × (error : ℕ) × (spin_lock c w (retry + 1) k mutex retry ≡ some (k', error))
      × IsEnded k' mutex error
unfolding spin_lock
spin_lock-IsEnded c w k mutex retry calm b =
    loop_ends c w mutex calm (retry + 1) 0 retry 0 k b (omega arith) (omega arith)

loop_taken :
    (c : Config) (w : World) (mutex n retry : ℕ)
    → IsCalm c w mutex
    → ((m : Kernel) → (w.away n m).mem mutex % 256 ≡ 0)
    → w.lost (n + 1) ≡ false
    → n + 1 < retry
    → (fuel turn : ℕ) (k : Kernel) → IsSettled c k mutex
    → retry - turn < fuel
    → ((turn ≡ n + 1) × (k.mem mutex % 256 ≡ 0)) ⊎ (turn ≤ n)
    → (k' : Kernel) × (spin_loop c w fuel turn retry turn k mutex ≡ some (k', error_none))
      × Holds k' mutex
unfolding spin_loop
loop_taken c w mutex n retry calm free lost l zero turn k b f at_turn = absurd (omega arith)
loop_taken c w mutex n retry calm free lost l (suc fuel) turn k b f (inl (here, unlocked)) =
    let (k', e, h) = free_pass c w turn k mutex unlocked (ap w.lost here ∙ lost) in
    (k', ground (arith, e), h)
loop_taken c w mutex n retry calm free lost l (suc fuel) turn k b f (inr before) =
    elim (pass-cases c w turn k mutex b) [
      | inl (k', e, h) ↦ (k', ground (arith, e), h)
      | inr (m, e) ↦
          let stage : ((turn + 1 ≡ n + 1) × ((w.away turn m).mem mutex % 256 ≡ 0))
              ⊎ (turn + 1 ≤ n) =
            elim (dec_lt turn n) [
              | yes q ↦ inr (omega arith)
              | no q ↦
                  let here : turn ≡ n = omega arith in
                  inl (omega arith, ap (λ t. (w.away t m).mem mutex % 256) here ∙ free m)
            ] in
          let (k', r, h) =
            loop_taken c w mutex n retry calm free lost l fuel (turn + 1) (w.away turn m)
              (calm turn m).0 (omega arith) stage in
          (k', ground (arith, e, r), h)
    ]

-- A waiting task gets the mutex: where at most one promotion is in force and the mutex names a slot as its
-- owner whenever the caller runs, and the mutex is free when the caller comes back from its hand-over number `n`, which is not the last of
-- its rounds, and its next attempt is not disturbed, `spin_lock` returns ERROR_NONE with the
-- caller's id in the mutex.
pub spin_lock_released :
    (c : Config) (w : World) (k : Kernel) (mutex retry n : ℕ)
    → IsCalm c w mutex
    → IsSettled c k mutex
    → n + 1 < retry
    → ((m : Kernel) → (w.away n m).mem mutex % 256 ≡ 0)
    → w.lost (n + 1) ≡ false
    → (k' : Kernel) × (spin_lock c w (retry + 1) k mutex retry ≡ some (k', error_none))
      × Holds k' mutex
unfolding spin_lock
spin_lock_released c w k mutex retry n calm b l free lost =
    loop_taken c w mutex n retry calm free lost l (retry + 1) 0 k b (omega arith)
      (inr (omega arith))

-- Two undisturbed attempts on a free mutex, one after the other: the first puts its task's id there; the
-- second succeeds and takes the mutex over exactly if the low byte of that id is 0, and otherwise
-- fails and leaves the mutex as it is.
pub mutex_lock_twice :
    (k : Kernel) (mutex other : ℕ)
    → k.mem mutex % 256 ≡ 0
    → let first = (mutex_lock false k mutex).0 in
      let second = mutex_lock false (record first { current_task = other }) mutex in
      (first.mem mutex ≡ k.task_id k.current_task)
      × (second.1 ≡ (if k.task_id k.current_task % 256 == 0 then 0 else 1))
      × (second.0.mem mutex ≡ (
          if k.task_id k.current_task % 256 == 0
          then k.task_id other
          else k.task_id k.current_task))
unfolding mutex_lock
mutex_lock_twice k mutex other h = (ground arith, ground arith, ground arith)
