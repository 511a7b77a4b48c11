-- ===== src/Base.antt =====
-- The base task: the body of the loop of `BaseTask` in src/baset.c. The addresses of the static variables
-- `task_id` and `args` are arguments, and so are the bytes above `error` in `base_release`; the errors that the code leaves to a "ToDo" are dropped.
pub mod Calls
pub mod Protocol
use skibios.Prelude.{ℕ, ◌==◌, if◌then◌else◌, u16}
use skibios.Config.{Config}
use skibios.Error.{error_none}
use skibios.Kvar.{Kernel}
use skibios.Service.{Frame, Outcome, returns, resets, faults, hangs}
use skibios.Api.{direct, get_invocation_args, grant_permission, base_release, device_reset}

-- The error of one call is the argument of the next.
unfoldable pub with_result : Outcome → (Kernel → ℕ → Outcome) → Outcome
with_result (returns fr) next = next fr.kernel fr.error
with_result (resets k) next = resets k
with_result faults next = faults
with_result hangs next = hangs

-- `access_code = *args`, a `uint16_t`
abbrev pub access_code : Kernel → ℕ → ℕ
access_code k args = u16 (k.mem (k.mem args))

unfoldable pub grant_and_release : Config → ℕ → ℕ → ℕ → Kernel → Outcome
unfolding with_result base_release grant_permission direct
grant_and_release c above task_id access k =
    with_result (grant_permission c k (k.mem task_id) access)
      (λ m error. base_release c m error above)

unfoldable pub serve : Config → ℕ → Kernel → ℕ → ℕ → Outcome
unfolding with_result grant_and_release device_reset
serve c above k task_id args =
    let access = access_code k args in
    if access == 0
    then with_result (device_reset c k) (λ m error. grant_and_release c above task_id access m)
    else grant_and_release c above task_id access k

unfoldable pub base_round : Config → ℕ → Kernel → ℕ → ℕ → Outcome
unfolding with_result serve get_invocation_args direct
base_round c above k task_id args =
    if k.invocated_task == 0
    then direct k error_none
    else with_result (get_invocation_args k task_id args) (λ m error. serve c above m task_id args)
