-- ===== src/Api/Hibernate/Wake.antt =====
-- When a hibernating task goes on (`hibernate` of src/task.c, HIBERNATE, and the sweep of the scheduler).
use skibios.Prelude.{
  ℕ, zero, suc, ◌+◌, ◌<◌, ◌≤◌, ◌≡◌, ◌≢◌, refl, ap, subst, ◌∙◌, Bool, Bool-cases, inl, inr, true,
  false, not, some, arith, if◌then◌else◌, bit_or,
}
use skibios.Prelude.Loops.{for_range, find_first, find_first_before}
use skibios.Config.{Config}
use skibios.Error.{error_none}
use skibios.Kvar.{
  Kernel, task_state_sleep, task_state_hibernate_g, task_state_hibernate_l, hibernate_rev_mask,
}
use skibios.Hardware.{trigger_scheduler}
use skibios.Svc
use skibios.Dispatch.{svc_dispatch, find_service, call_service, svc_loop, svc_handler}
use skibios.Macros.{registers, svc_frame, svc}
use skibios.Task.Hibernate.{is_reverse, hibernate_current, count_hibernation, svc_service_hibernate}
use skibios.Scheduler.{wake, check_hibernate_g, check_hibernate_l, check_hibernate}
use skibios.Boot.{after}
use skibios.Api.Hibernate.{goes_on, wait_loop, waits_itself, merged, hibernate}

merged_plain : (i : ℕ) → i < 256 → is_reverse (bit_or i 0) ≡ false
unfolding find_first
merged_plain i l = find_first_before 256 0 (λ x. is_reverse (bit_or x 0)) i (omega arith) l

merged_reverse : (i : ℕ) → i < 256 → is_reverse (bit_or i hibernate_rev_mask) ≡ true
unfolding find_first
merged_reverse i l =
    let no =
      find_first_before 256 0 (λ x. not (is_reverse (bit_or x hibernate_rev_mask))) i (omega arith)
        l in
    ground (arith, no)

is_reverse-merged :
    (k : Kernel) (reverse : Bool) → k.current_task < 256 → is_reverse (merged k reverse) ≡ reverse
is_reverse-merged k true l = merged_reverse k.current_task l
is_reverse-merged k false l = merged_plain k.current_task l

-- The kernel that the service leaves.
abbrev slept : Kernel → Bool → ℕ → ℕ → ℕ → Kernel
slept k reverse op1 op2 value =
    trigger_scheduler (record (count_hibernation (hibernate_current k reverse op1 op2 value)) {
      normal_schedule = false;
    })

service_lem :
    (c : Config) (k : Kernel) (a op1 op2 value : ℕ)
    → after (svc c k Svc.hibernate a op1 op2 value) ≡ some (slept k (is_reverse a) op1 op2 value)
unfolding svc svc_frame registers svc_handler svc_loop call_service find_service svc_dispatch
    svc_service_hibernate after
service_lem c k a op1 op2 value = refl

slept_fields :
    (k : Kernel) (reverse : Bool) (op1 op2 value : ℕ)
    → let m = slept k reverse op1 op2 value in
      (m.state k.current_task
        ≡ (if reverse then task_state_hibernate_l else task_state_hibernate_g))
      × (m.op1 k.current_task ≡ op1)
      × (m.op2 k.current_task ≡ op2)
      × (m.hib_value k.current_task ≡ value)
unfolding trigger_scheduler count_hibernation hibernate_current
slept_fields k reverse op1 op2 value = (ground arith, ground arith, ground arith, ground arith)

checked :
    (m : Kernel) (i : ℕ) (reverse : Bool)
    → m.state i ≡ (if reverse then task_state_hibernate_l else task_state_hibernate_g)
    → (check_hibernate m i).state i ≡ (
        if goes_on m (m.op1 i) (m.op2 i) (m.hib_value i) reverse
        then (if reverse then task_state_hibernate_l else task_state_hibernate_g)
        else task_state_sleep)
unfolding check_hibernate check_hibernate_g check_hibernate_l wake
checked m i true h = ground arith
checked m i false h = ground arith

slept-check_hibernate :
    (k : Kernel) (reverse : Bool) (op1 op2 value : ℕ) (mem : ℕ → ℕ)
    → (check_hibernate (record (slept k reverse op1 op2 value) { mem = mem }) k.current_task).state
        k.current_task
      ≡ (if goes_on (record k { mem = mem }) op1 op2 value reverse
          then (if reverse then task_state_hibernate_l else task_state_hibernate_g)
          else task_state_sleep)
slept-check_hibernate k reverse op1 op2 value mem =
    let (s, e1, e2, e3) = slept_fields k reverse op1 op2 value in
    let m = record (slept k reverse op1 op2 value) { mem = mem } in
    subst
      (λ (x : ℕ × ℕ × ℕ). (check_hibernate m k.current_task).state k.current_task ≡ (
        if goes_on (record k { mem = mem }) x.0 x.1 x.2 reverse
        then (if reverse then task_state_hibernate_l else task_state_hibernate_g)
        else task_state_sleep))
      (λ i. (e1 i, e2 i, e3 i)) (checked m k.current_task reverse s)

slept-state :
    (k : Kernel) (reverse : Bool) (op1 op2 value i : ℕ)
    → i ≢ k.current_task
    → (slept k reverse op1 op2 value).state i ≡ k.state i
unfolding trigger_scheduler count_hibernation hibernate_current
slept-state k reverse op1 op2 value i h = ground arith

-- Where the task does not wait by itself, `hibernate` returns ERROR_NONE when it runs again, and no other
-- task's state is changed. Until then, whatever the memory becomes, the test that the scheduler makes
-- on the task leaves it in hibernation exactly while the loop of `hibernate` would go on, and
-- otherwise puts it to sleep, ready to run.
pub hibernate-check_hibernate :
    (c : Config) (fuel : ℕ) (others : ℕ → Kernel → Kernel) (k : Kernel) (op1 op2 value : ℕ)
    (reverse : Bool)
    → k.current_task < 256
    → waits_itself c k ≡ false
    → (k' : Kernel) × (hibernate c fuel others k op1 op2 value reverse ≡ some (k', error_none))
      × ((i : ℕ) → i ≢ k.current_task → k'.state i ≡ k.state i)
      × ((mem : ℕ → ℕ)
          → (check_hibernate (record k' { mem = mem }) k.current_task).state k.current_task ≡ (
              if goes_on (record k { mem = mem }) op1 op2 value reverse
              then (if reverse then task_state_hibernate_l else task_state_hibernate_g)
              else task_state_sleep))
unfolding hibernate
hibernate-check_hibernate c fuel others k op1 op2 value reverse l w =
    let e : after (svc c k Svc.hibernate (merged k reverse) op1 op2 value)
        ≡ some (slept k reverse op1 op2 value) =
      service_lem c k (merged k reverse) op1 op2 value
      ∙ ap (λ b. some (slept k b op1 op2 value)) (is_reverse-merged k reverse l) in
    (
      slept k reverse op1 op2 value,
      ground (arith, e),
      λ i h. slept-state k reverse op1 op2 value i h,
      λ mem. slept-check_hibernate k reverse op1 op2 value mem,
    )

before :
    (others : ℕ → Kernel → Kernel) (k : Kernel) (turn op1 op2 value : ℕ) (reverse : Bool) (j : ℕ)
    → goes_on k op1 op2 value reverse ≡ true
    → ((i : ℕ)
        → i < j
        → goes_on (for_range i (turn + 1) others (others turn k)) op1 op2 value reverse ≡ true)
    → (i : ℕ) → i < suc j
    → goes_on (for_range i turn others k) op1 op2 value reverse ≡ true
unfolding for_range
before others k turn op1 op2 value reverse j h first zero l = h
before others k turn op1 op2 value reverse j h first (suc i) l = first i (omega arith)

wait_lem :
    (fuel n turn : ℕ) (others : ℕ → Kernel → Kernel) (k : Kernel) (op1 op2 value : ℕ)
    (reverse : Bool)
    → n < fuel
    → goes_on (for_range n turn others k) op1 op2 value reverse ≡ false
    → (j : ℕ) × (j ≤ n)
      × (wait_loop fuel others turn k op1 op2 value reverse
          ≡ some (for_range j turn others k, error_none))
      × (goes_on (for_range j turn others k) op1 op2 value reverse ≡ false)
      × ((i : ℕ) → i < j → goes_on (for_range i turn others k) op1 op2 value reverse ≡ true)
unfolding wait_loop for_range
wait_lem zero n turn others k op1 op2 value reverse f e = absurd (omega arith)
wait_lem (suc fuel) zero turn others k op1 op2 value reverse f e =
    (0, omega arith, ground (arith, e), e, λ i l. absurd (omega arith))
wait_lem (suc fuel) (suc n) turn others k op1 op2 value reverse f e =
    elim (Bool-cases (goes_on k op1 op2 value reverse)) [
      | inr h ↦ (0, omega arith, ground (arith, h), h, λ i l. absurd (omega arith))
      | inl h ↦
          let (j, l, r, q, first) =
            wait_lem fuel n (turn + 1) others (others turn k) op1 op2 value reverse (omega arith)
              e in
          (
            suc j,
            omega arith,
            ground (arith, h, r),
            q,
            before others k turn op1 op2 value reverse j h first,
          )
    ]
