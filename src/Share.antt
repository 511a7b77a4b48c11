-- ===== src/Share.antt =====
-- Mutexes and semaphores: src/share.c, and the routines of src/arch/arm-m3m4/mutex.S and semaphore.S under
-- it. The version without ENABLE_SAFE_LOCK is modelled; with it the file does not compile, since
-- the local `state` hides the table of that name.
pub mod Semaphores
pub mod Lock
use skibios.Prelude.{
  ℕ, zero, suc, ◌+◌, ◌-◌, ◌/◌, ◌%◌, Bool, true, false, ◌&&◌, Option, none, some, ◌==◌, ltb,
  if◌then◌else◌, u8, update,
}
use skibios.Config.{Config}
use skibios.Error.{error_none, error_resource_locked_indefinetly}
use skibios.Kvar.{Kernel}
use skibios.Hardware.{write_reg}
use skibios.Svc
use skibios.Task.Promote.{mutex_owner}
use skibios.Macros.{svc}
use skibios.Boot.{after}

-- What the caller does not decide, for each of its attempts: whether the exclusive store loses the word to
-- another access, and what the other tasks make of the kernel until the caller runs again, after a
-- HAND_OVER (`away`) and after a PRIORITY_PROMOTE (`lent`).
pub record World : Type 0 where
  pub lost : ℕ → Bool
  pub away : ℕ → Kernel → Kernel
  pub lent : ℕ → Kernel → Kernel

-- LDREXB reads the low byte of the word, STREX writes the word.
unfoldable pub mutex_lock : Bool → Kernel → ℕ → Kernel × ℕ
mutex_lock lost k mutex =
    if k.mem mutex % 256 == 0
    then (if lost then (k, 1) else (write_reg mutex (k.task_id k.current_task) k, 0))
    else (k, 1)

-- STRB clears the low byte.
unfoldable pub mutex_unlock : Config → Kernel → ℕ → Option Kernel
unfolding svc after
mutex_unlock c k mutex =
    let k1 = write_reg mutex (k.mem mutex - k.mem mutex % 256) k in
    if k1.mutex_stash k1.current_task == mutex
    then after (svc c k1 Svc.priority_demote 0 0 0 0)
    else some k1

-- LDREXB, ADD, STREXB
unfoldable pub arch_semaphore_inc : Bool → Kernel → ℕ → Kernel × ℕ
arch_semaphore_inc lost k semaphore =
    let value = k.mem semaphore in
    if lost then (k, 1) else (write_reg semaphore (value - value % 256 + u8 (value % 256 + 1)) k, 0)

-- At 0 nothing is stored, and the result is 0 too.
unfoldable pub arch_semaphore_dec : Bool → Kernel → ℕ → Kernel × ℕ
arch_semaphore_dec lost k semaphore =
    let value = k.mem semaphore in
    if value % 256 == 0
    then (k, 0)
    else (if lost then (k, 1) else (write_reg semaphore (value - 1) k, 0))

-- `svc(HAND_OVER)`, up to the next turn of the caller.
unfoldable pub svc_hand_over : Config → World → ℕ → Kernel → Option Kernel
unfolding svc after
svc_hand_over c w turn k = elim (after (svc c k Svc.hand_over 0 0 0 0)) [
  | none ↦ none
  | some k' ↦ some (w.away turn k')
]

-- The loop of both semaphore functions, with `rounds` = retry - loop. `none`: a service does not return.
unfoldable pub semaphore_loop :
    (Bool → Kernel → ℕ → Kernel × ℕ) → Config → World → ℕ → ℕ → Kernel → ℕ → Option (Kernel × ℕ)
unfolding svc_hand_over
semaphore_loop attempt c w zero turn k semaphore = some (k, error_resource_locked_indefinetly)
semaphore_loop attempt c w (suc rounds) turn k semaphore =
    let (k1, state) = attempt (w.lost turn) k semaphore in
    elim (state == 0) [
      | true ↦ some (k1, error_none)
      | false ↦ elim (svc_hand_over c w turn k1) [
        | none ↦ none
        | some k2 ↦ semaphore_loop attempt c w rounds (turn + 1) k2 semaphore
      ]
    ]

unfoldable pub semaphore_increment : Config → World → Kernel → ℕ → ℕ → Option (Kernel × ℕ)
unfolding semaphore_loop arch_semaphore_inc
semaphore_increment c w k semaphore retry =
    semaphore_loop arch_semaphore_inc c w retry 0 k semaphore

unfoldable pub semaphore_decrement : Config → World → Kernel → ℕ → ℕ → Option (Kernel × ℕ)
unfolding semaphore_loop arch_semaphore_dec
semaphore_decrement c w k semaphore retry =
    semaphore_loop arch_semaphore_dec c w retry 0 k semaphore

-- `priority_Array[index][0] < max_level && priority_Array[current_task][0] == max_level`
abbrev pub is_outranked : Kernel → ℕ → Bool
is_outranked k index =
    ltb (k.prio_current index) k.max_level && (k.prio_current k.current_task == k.max_level)

-- The end of one pass of the loop: `break`, `continue`, the next round, or a service that does not return.
pub data Pass : Type 0 where
  broken : Kernel → Pass
  continued : Kernel → Pass
  handed : Kernel → Pass
  stuck : Pass

unfoldable pub hand_over_pass : Config → World → ℕ → Kernel → Pass
unfolding svc_hand_over
hand_over_pass c w turn k = elim (svc_hand_over c w turn k) [ none ↦ stuck | some k' ↦ handed k' ]

unfoldable pub promote_pass : Config → World → ℕ → Kernel → ℕ → Pass
unfolding svc after hand_over_pass
promote_pass c w turn k mutex = elim (after (svc c k Svc.priority_promote mutex 0 0 0)) [
  | none ↦ stuck
  | some k' ↦ hand_over_pass c w turn (w.lent turn k')
]

-- The body of the loop; `index` is a `uint8_t`.
unfoldable pub spin_pass : Config → World → ℕ → Kernel → ℕ → Pass
unfolding mutex_lock hand_over_pass promote_pass
spin_pass c w turn k mutex =
    let (k1, state) = mutex_lock (w.lost turn) k mutex in
    let index = u8 (mutex_owner k1 mutex) in
    if state == 0
    then broken k1
    else (if is_outranked k1 index
        then (if ltb 127 (k1.prio_current index)
            then continued k1
            else promote_pass c w turn k1 mutex)
        else hand_over_pass c w turn k1)

-- `while(loop < retry)`, on fuel since a `continue` does not count. `none`: out of fuel, or a service that
-- does not return.
unfoldable pub spin_loop : Config → World → ℕ → ℕ → ℕ → ℕ → Kernel → ℕ → Option (Kernel × ℕ)
unfolding spin_pass
spin_loop c w zero loop retry turn k mutex = none
spin_loop c w (suc fuel) loop retry turn k mutex = elim (ltb loop retry) [
  | false ↦ some (k, error_resource_locked_indefinetly)
  | true ↦ elim (spin_pass c w turn k mutex) [
    | broken k' ↦ some (k', error_none)
    | continued k' ↦ spin_loop c w fuel loop retry (turn + 1) k' mutex
    | handed k' ↦ spin_loop c w fuel (loop + 1) retry (turn + 1) k' mutex
    | stuck ↦ none
  ]
]

unfoldable pub spin_lock : Config → World → ℕ → Kernel → ℕ → ℕ → Option (Kernel × ℕ)
unfolding spin_loop
spin_lock c w fuel k mutex retry = spin_loop c w fuel 0 retry 0 k mutex
