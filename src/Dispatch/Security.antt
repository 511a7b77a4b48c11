-- ===== src/Dispatch/Security.antt =====
-- Software-defined security across a whole call of `svc_handler` (src/arch/ossim/svc_handler.c): what a
-- task that is not the base task can make of the permissions.
use skibios.Prelude.{ℕ, ◌≡◌, ◌≢◌, ◌⊎◌}
use skibios.Config.{Config}
use skibios.Service.{Frame}

-- The running task is the same, and its permissions and those of the others are kept or dropped.
pub record IsConfined (fr fr' : Frame) : Type 0 where
  pub owner : fr'.kernel.current_task ≡ fr.kernel.current_task
  pub permissions :
      (i : ℕ)
      → i ≢ 0
      → fr.kernel.current_task ≢ 0
      → (fr'.kernel.permissions i ≡ fr.kernel.permissions i) ⊎ (fr'.kernel.permissions i ≡ 0)
