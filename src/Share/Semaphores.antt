-- ===== src/Share/Semaphores.antt =====
-- `semaphore_increment` and `semaphore_decrement` of src/share.c, over their assembly routines.
use skibios.Prelude.{
  ℕ, zero, suc, ◌+◌, ◌-◌, ◌%◌, ◌≡◌, ◌≢◌, refl, ◌∙◌, inl, inr, Bool, Bool-cases, true, false, not,
  ◌||◌, ◌&&◌, some, arith, ◌==◌, ltb, if◌then◌else◌, u8,
}
use skibios.Prelude.Loops.{find_first}
use skibios.Config.{Config}
use skibios.Error.{error_none, error_resource_locked_indefinetly}
use skibios.Kvar.{Kernel}
use skibios.Hardware.{intctrl, trigger_scheduler}
use skibios.Dispatch.{svc_dispatch, find_service, call_service, svc_loop, svc_handler}
use skibios.System.{svc_service_hand_over}
use skibios.Macros.{registers, svc_frame, svc}
use skibios.Boot.{after}
use skibios.Share.{
  World, svc_hand_over, arch_semaphore_inc, arch_semaphore_dec, semaphore_loop, semaphore_increment,
  semaphore_decrement,
}

-- HAND_OVER always returns, and writes no word but the interrupt control register.
pub hand_over_lem :
    (c : Config) (w : World) (turn : ℕ) (k : Kernel)
    → (k1 : Kernel) × (svc_hand_over c w turn k ≡ some (w.away turn k1))
      × ((a : ℕ) → a ≢ intctrl → k1.mem a ≡ k.mem a)
      × (k1.max_level ≡ k.max_level)
unfolding svc_hand_over svc svc_frame registers svc_handler svc_loop call_service find_service
    svc_dispatch svc_service_hand_over trigger_scheduler after
hand_over_lem c w turn k = (_, refl, (λ a h. ground arith), ground arith)

-- The other tasks leave the word alone.
abbrev pub Leaves : World → ℕ → Type 0
Leaves w s = (turn : ℕ) (m : Kernel) → (w.away turn m).mem s ≡ m.mem s

-- An attempt succeeds or changes nothing, as `passes` says, and a success changes the word by `change`.
abbrev Attempt : (Bool → Kernel → ℕ → Kernel × ℕ) → (Bool → ℕ → Bool) → (ℕ → ℕ) → Type 0
Attempt attempt passes change =
    (lost : Bool) (m : Kernel) (s : ℕ)
    → ((passes lost (m.mem s) ≡ true)
        → ((attempt lost m s).1 ≡ 0) × ((attempt lost m s).0.mem s ≡ change (m.mem s)))
      × ((passes lost (m.mem s) ≡ false) → attempt lost m s ≡ (m, 1))

loop_step :
    (attempt : Bool → Kernel → ℕ → Kernel × ℕ) (c : Config) (w : World) (s rounds turn : ℕ)
    (k k2 : Kernel)
    → attempt (w.lost turn) k s ≡ (k, 1)
    → svc_hand_over c w turn k ≡ some k2
    → semaphore_loop attempt c w (suc rounds) turn k s
      ≡ semaphore_loop attempt c w rounds (turn + 1) k2 s
unfolding semaphore_loop
loop_step attempt c w s rounds turn k k2 e h = ground (arith, e, h)

-- The attempt that succeeds, or `turn + rounds`.
abbrev first_pass : (Bool → ℕ → Bool) → World → ℕ → ℕ → ℕ → ℕ
first_pass passes w value rounds turn = find_first rounds turn (λ t. passes (w.lost t) value)

loop_lem :
    (attempt : Bool → Kernel → ℕ → Kernel × ℕ) (passes : Bool → ℕ → Bool) (change : ℕ → ℕ)
    → Attempt attempt passes change
    → (c : Config) (w : World) (s value : ℕ) → s ≢ intctrl
    → Leaves w s
    → (rounds turn : ℕ) (k : Kernel) → k.mem s ≡ value
    → (k' : Kernel) × (semaphore_loop attempt c w rounds turn k s
        ≡ some (
          k',
          if ltb (first_pass passes w value rounds turn) (turn + rounds)
              then error_none
              else error_resource_locked_indefinetly,
        ))
      × (k'.mem s ≡ (
          if ltb (first_pass passes w value rounds turn) (turn + rounds)
          then change value
          else value))
unfolding semaphore_loop find_first
loop_lem attempt passes change a c w s value ne l zero turn k same = (k, ground arith, ground arith)
loop_lem attempt passes change a c w s value ne l (suc rounds) turn k same =
    elim (Bool-cases (passes (w.lost turn) (k.mem s))) [
      | inl e ↦
          let (zeroed, v) = (a (w.lost turn) k s).0 e in
          ((attempt (w.lost turn) k s).0, ground (arith, zeroed), ground (arith, v))
      | inr e ↦
          let (k1, h, keep, top) = hand_over_lem c w turn k in
          let k2 = w.away turn k1 in
          let word : k2.mem s ≡ value = l turn k1 ∙ keep s ne ∙ same in
          let (k', r, v) =
            loop_lem attempt passes change a c w s value ne l rounds (turn + 1) k2 word in
          let step = loop_step attempt c w s rounds turn k k2 ((a (w.lost turn) k s).1 e) h in
          (k', step ∙ ground (arith, r), ground (arith, v))
    ]

inc-Attempt : Attempt arch_semaphore_inc (λ lost v. not lost) (λ v. v - v % 256 + u8 (v % 256 + 1))
unfolding arch_semaphore_inc
inc-Attempt lost m s = (λ e. ground arith, λ e. ground arith)

dec-Attempt :
    Attempt arch_semaphore_dec
      (λ lost v. (v % 256 == 0) || not lost)
      (λ v. if v % 256 == 0 then v else v - 1)
unfolding arch_semaphore_dec
dec-Attempt lost m s = (λ e. ground arith, λ e. ground arith)

-- Where the other tasks leave the semaphore's word alone, `semaphore_increment` returns. It adds one to the
-- low byte, modulo 256, exactly once and returns ERROR_NONE if one of the `retry` attempts does not lose
-- its exclusive store; otherwise it leaves the word and returns ERROR_RESOURCE_LOCKED_INDEFINETLY.
pub semaphore_increment_lem :
    (c : Config) (w : World) (k : Kernel) (s retry : ℕ)
    → s ≢ intctrl
    → Leaves w s
    → (k' : Kernel) × (semaphore_increment c w k s retry
        ≡ some (
          k',
          if ltb (find_first retry 0 (λ t. not (w.lost t))) retry
              then error_none
              else error_resource_locked_indefinetly,
        ))
      × (k'.mem s ≡ (
          if ltb (find_first retry 0 (λ t. not (w.lost t))) retry
          then k.mem s - k.mem s % 256 + u8 (k.mem s % 256 + 1)
          else k.mem s))
unfolding semaphore_increment
semaphore_increment_lem c w k s retry ne l =
    let (k', r, v) =
      loop_lem arch_semaphore_inc (λ lost v. not lost) (λ v. v - v % 256 + u8 (v % 256 + 1))
        inc-Attempt c w s (k.mem s) ne l retry 0 k refl in
    (k', ground (arith, r), ground (arith, v))

-- Whether one of the attempts passes, where `zero_is_fine` lets each of them pass.
some_pass :
    (zero_is_fine : Bool) (retry : ℕ) (lost : ℕ → Bool)
    → ltb (find_first retry 0 (λ t. zero_is_fine || not (lost t))) retry
      ≡ (if zero_is_fine then ltb 0 retry else ltb (find_first retry 0 (λ t. not (lost t))) retry)
unfolding find_first
some_pass true zero lost = refl
some_pass true (suc retry) lost = ground arith
some_pass false retry lost = refl

-- Where the other tasks leave the semaphore's word alone, `semaphore_decrement` returns. From a low byte
-- other than 0 it takes one off, exactly once, and returns ERROR_NONE if one of the `retry`
-- attempts does not lose its exclusive store; otherwise it leaves the word and returns
-- ERROR_RESOURCE_LOCKED_INDEFINETLY. On a low byte of 0 it leaves the word, and returns ERROR_NONE at
-- once if `retry` is not 0: it does not wait for an increment.
pub semaphore_decrement_lem :
    (c : Config) (w : World) (k : Kernel) (s retry : ℕ)
    → s ≢ intctrl
    → Leaves w s
    → (k' : Kernel) × (semaphore_decrement c w k s retry
        ≡ some (
          k',
          if (if k.mem s % 256 == 0
                then ltb 0 retry
                else ltb (find_first retry 0 (λ t. not (w.lost t))) retry)
              then error_none
              else error_resource_locked_indefinetly,
        ))
      × (k'.mem s ≡ (
          if not (k.mem s % 256 == 0) && ltb (find_first retry 0 (λ t. not (w.lost t))) retry
          then k.mem s - 1
          else k.mem s))
unfolding semaphore_decrement
semaphore_decrement_lem c w k s retry ne l =
    let (k', r, v) =
      loop_lem arch_semaphore_dec (λ lost v. (v % 256 == 0) || not lost)
        (λ v. if v % 256 == 0 then v else v - 1) dec-Attempt c w s (k.mem s) ne l retry 0 k refl in
    let pass = some_pass (k.mem s % 256 == 0) retry w.lost in
    (k', ground (arith, r, pass), ground (arith, v, pass))
