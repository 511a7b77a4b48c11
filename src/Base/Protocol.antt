-- ===== src/Base/Protocol.antt =====
-- An invocation of the base task from both sides: `base_run` of src/permissions.c, the round of `BaseTask`
-- and the return to the caller.
use skibios.Prelude.{
  ℕ, ◌<◌, ◌≡◌, ◌≢◌, refl, sym, ap, subst, ◌∙◌, false, arith, ◌==◌, ◌&&◌, if◌then◌else◌, u16, update,
}
use skibios.Prelude.Loops.{find_first, find_first_unique}
use skibios.Config.{Config}
use skibios.Error.{error_none}
use skibios.Kvar.{Kernel, task_state_sleep, task_state_hold}
use skibios.Hardware.{trigger_scheduler, intctrl}
use skibios.Service.{Frame, returns}
use skibios.Task.Promote.{
  enter_promotion, mutex_owner, promote_owner, leave_promotion, find_holder, demote_current,
  release_holder,
}
use skibios.Permission.{find_task}
use skibios.Api.{direct, get_invocation_args, base_run, base_run_result, loaded_word}
use skibios.Base.{with_result, access_code, serve, base_round}
use skibios.Base.Calls.{invoked, base_run_lem, released, served}

-- What the caller, task `i`, finds when it runs again.
pub record IsServed (k k' : Kernel) (i a above : ℕ) : Type 0 where
  pub permissions : (j : ℕ) → k'.permissions j ≡ (if j == i then u16 (k.mem a) else k.permissions j)
  pub result :
      base_run_result (record k' { current_task = i }) error_none ≡ loaded_word error_none above
  pub idle : k'.invocated_task ≡ 0
  pub state : k'.state i ≡ task_state_sleep
  pub max_level : k'.max_level ≡ k.max_level
  pub maxp_level : k'.maxp_level ≡ 127
  pub alc : k'.alc ≡ k.alc
  pub hlc : k'.hlc ≡ k.hlc
  pub prio_current : (j : ℕ) → k'.prio_current j ≡ k.prio_current j

-- The caller's slot is the first with its id, and the words on the way are apart from each other.
pub record IsInvocable (c : Config) (k : Kernel) (a task_id args : ℕ) : Type 0 where
  pub caller : k.current_task ≢ 0
  pub bound : k.current_task < c.max_task_count
  pub real : k.task_id k.current_task ≢ 0
  pub unique : (j : ℕ) → j < k.current_task → k.task_id j ≢ k.task_id k.current_task
  pub self_kill : k.self_kill ≡ false
  pub no_promotion : k.maxp_level ≡ 127
  pub base_mutex : k.mem c.base_mutex_addr ≡ 1
  pub nobody_waits :
      (j : ℕ)
      → j < c.max_task_count
      → (k.state j ≡ task_state_hold) × (k.op1 j ≡ c.base_mutex_addr)
      → j ≡ k.current_task
  pub statics : task_id ≢ args
  pub apart : (a ≢ intctrl) × (a ≢ task_id) × (a ≢ args) × (task_id ≢ intctrl) × (args ≢ intctrl)

-- The kernel between the promotion and the demotion of the base task.
abbrev waiting : Config → Kernel → ℕ → ℕ → ℕ → Kernel
waiting c k a task_id args =
    let m = invoked c k a in
    record m {
      current_task = 0;
      mem = update (update m.mem task_id m.invocated_task) args m.invocated_args;
    }

waiting-released :
    (c : Config) (k : Kernel) (a above task_id args : ℕ)
    → IsInvocable c k a task_id args
    → IsServed k
        (released c
          (record (waiting c k a task_id args) {
            permissions =
                update k.permissions k.current_task (access_code (waiting c k a task_id args) args);
          })
          k.current_task
          (loaded_word error_none above))
        k.current_task
        a
        above
unfolding release_holder leave_promotion demote_current promote_owner enter_promotion find_holder
    trigger_scheduler base_run_result
waiting-released c k a above task_id args v =
    let owner : mutex_owner k c.base_mutex_addr ≡ 0 = ground (arith, v.base_mutex) in
    let first : find_first c.max_task_count 0 (λ j.
      ((if j == k.current_task then task_state_hold else k.state j) == task_state_hold)
      && ((if j == k.current_task then c.base_mutex_addr else k.op1 j) == c.base_mutex_addr))
        ≡ k.current_task =
      find_first_unique c.max_task_count 0 _ k.current_task (omega arith) (omega (arith, v.bound))
        (ground arith) (λ j l m. ground (arith, v.nobody_waits j, v.bound)) in
    record {
      permissions = λ j. ground (arith, v.apart);
      result = ground (arith);
      idle = ground arith;
      state = ground (arith, first, owner, v.no_promotion);
      max_level = ground (arith, first, owner, v.no_promotion);
      maxp_level = ground (arith, first, owner, v.no_promotion);
      alc = ground (arith, first, owner, v.no_promotion);
      hlc = ground (arith, first, owner, v.no_promotion);
      prio_current = λ j. ground (arith, first, owner, v.no_promotion, v.caller);
    }

waiting-find_task :
    (c : Config) (k : Kernel) (a task_id args : ℕ)
    → IsInvocable c k a task_id args
    → find_task c (waiting c k a task_id args) (k.task_id k.current_task) ≡ k.current_task
unfolding find_task promote_owner enter_promotion trigger_scheduler
waiting-find_task c k a task_id args v =
    find_first_unique c.max_task_count 0 _ k.current_task (omega arith) (omega (arith, v.bound))
      (ground arith) (λ j l m. ground (arith, v.unique j m))

waiting-facts :
    (c : Config) (k : Kernel) (a task_id args : ℕ)
    → IsInvocable c k a task_id args
    → let m = waiting c k a task_id args in
      (m.self_kill ≡ false)
      × (m.invocated_task ≡ k.task_id k.current_task)
      × (m.mem task_id ≡ k.task_id k.current_task)
      × (access_code m args ≡ u16 (k.mem a))
      × (m.permissions ≡ k.permissions)
unfolding promote_owner enter_promotion trigger_scheduler
waiting-facts c k a task_id args v = ground (arith, v.self_kill, v.statics, v.apart)

round_lem :
    (c : Config) (k : Kernel) (above task_id args : ℕ)
    → k.current_task ≡ 0
    → k.invocated_task ≢ 0
    → base_round c above k task_id args
      ≡ serve c above
          (record k { mem = update (update k.mem task_id k.invocated_task) args k.invocated_args })
          task_id
          args
unfolding base_round with_result get_invocation_args direct
round_lem c k above task_id args h z = ground arith

-- A task asks the base task for the permission word at the address `a`, which is not 0 in its low 16 bits:
-- `base_run` returns, and when the base task then makes a round of its loop, that returns without an
-- error. The caller then has exactly that word as its permissions and no other task has other
-- permissions than before. `base_run` gives it the word that is loaded at the base task's `uint8_t` error:
-- ERROR_NONE in the low byte, and in the others the bytes `above` that variable. No invocation is pending,
-- the caller is ready, and every level and count is as before. The conditions are those of `IsInvocable`.
pub base_run-base_round :
    (c : Config) (k : Kernel) (a above task_id args : ℕ)
    → IsInvocable c k a task_id args
    → u16 (k.mem a) ≢ 0
    → (fr fr' : Frame) × (base_run c k a ≡ returns fr)
      × (base_round c above (record fr.kernel { current_task = 0 }) task_id args ≡ returns fr')
      × (fr'.error ≡ error_none)
      × IsServed k fr'.kernel k.current_task a above
base_run-base_round c k a above task_id args v z =
    let e1 = base_run_lem c k a v.caller (ground (arith, v.base_mutex, v.bound)) in
    let m0 = record (invoked c k a) { current_task = 0 } in
    let m = waiting c k a task_id args in
    let f = waiting-facts c k a task_id args v in
    let i = k.current_task in
    let found = waiting-find_task c k a task_id args v in
    let (fr, e2, x, e3) =
      served c m i above task_id args refl f.0 (ap (find_task c m) f.2 ∙ found)
        (ap (find_task c m) f.1 ∙ found) v.bound (λ q. z (sym f.3 ∙ q)) in
    let turn = round_lem c m0 above task_id args refl (λ q. v.real (sym f.1 ∙ q)) in
    let last =
      e3
      ∙ ap
          (λ p.
            released c (record m { permissions = update p i (access_code m args) }) i
              (loaded_word error_none above))
          f.4 in
    (
      _,
      fr,
      e1,
      turn ∙ e2,
      x,
      subst (λ y. IsServed k y i a above) (sym last) (waiting-released c k a above task_id args v),
    )
