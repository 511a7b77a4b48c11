-- ===== src/Api/Hibernate.antt =====
-- `hibernate` of src/task.c: the service, and the loops in which a task waits by itself where no other
-- task could run. What changes between two rounds of such a loop is an argument.
pub mod Wake
use skibios.Prelude.{
  ℕ, zero, suc, ◌+◌, ◌*◌, ◌/◌, ◌<◌, ◌≡◌, ◌≢◌, refl, sym, ap, subst, ◌∙◌, Bool, Bool-cases, inl, inr,
  true, false, not, ◌&&◌, Option, none, some, arith, ◌==◌, ltb, leb, if◌then◌else◌, update, u8,
  sub8, sub32, bit_and, bit_or,
}
use skibios.Prelude.Loops.{for_range, find_first, find_first_before}
use skibios.Config.{Config}
use skibios.Error.{error_none}
use skibios.Kvar.{
  Kernel, task_state_idle, task_state_sleep, task_state_hibernate_g, task_state_hibernate_l,
  hibernate_rev_mask,
}
use skibios.Hardware.{trigger_scheduler}
use skibios.Service.{Frame, Outcome, returns}
use skibios.Svc
use skibios.Dispatch.{svc_dispatch, find_service, call_service, svc_loop, svc_handler}
use skibios.Macros.{registers, svc_frame, svc}
use skibios.Task.Hibernate.{is_reverse, hibernate_current, count_hibernation, svc_service_hibernate}
use skibios.Scheduler.{wake, check_hibernate_g, check_hibernate_l, check_hibernate}
use skibios.Boot.{after}

-- The loops go on while `*op1 - *op2` is below the value, or above it when reversed.
abbrev pub goes_on : Kernel → ℕ → ℕ → ℕ → Bool → Bool
goes_on k op1 op2 value reverse =
    let difference = sub32 (k.mem op1) (k.mem op2) in
    if reverse then ltb value difference else ltb difference value

-- `none`: the loop has not ended within its fuel.
unfoldable pub wait_loop :
    ℕ → (ℕ → Kernel → Kernel) → ℕ → Kernel → ℕ → ℕ → ℕ → Bool → Option (Kernel × ℕ)
wait_loop zero others turn k op1 op2 value reverse = none
wait_loop (suc fuel) others turn k op1 op2 value reverse = elim (goes_on k op1 op2 value reverse) [
  | false ↦ some (k, error_none)
  | true ↦ wait_loop fuel others (turn + 1) (others turn k) op1 op2 value reverse
]

-- The tasks of the highest level, counted in a `uint8_t`.
unfoldable pub count_top : Config → Kernel → ℕ
count_top c k =
    for_range c.max_task_count 0
      (λ i count.
        if not (k.state i == task_state_idle) && (k.prio_current i == k.max_level)
        then u8 (count + 1)
        else count)
      0

abbrev pub waits_itself : Config → Kernel → Bool
waits_itself c k = if k.task_count == 1 then true else (not k.enable_dws && (count_top c k == 1))

abbrev pub merged : Kernel → Bool → ℕ
merged k reverse = bit_or k.current_task (if reverse then hibernate_rev_mask else 0)

unfoldable pub hibernate :
    Config → ℕ → (ℕ → Kernel → Kernel) → Kernel → ℕ → ℕ → ℕ → Bool → Option (Kernel × ℕ)
unfolding wait_loop count_top svc after
hibernate c fuel others k op1 op2 value reverse =
    if waits_itself c k
    then wait_loop fuel others 0 k op1 op2 value reverse
    else (elim (after (svc c k Svc.hibernate (merged k reverse) op1 op2 value)) [
      | none ↦ none
      | some k' ↦ some (k', error_none)
    ])
