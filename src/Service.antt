-- ===== src/Service.antt =====
-- The call of a kernel service, `uint32_t svc_service_…(uint32_t *svc_num, uint32_t *arguments)`
-- (src/include/svctable.h): the kernel, the two arrays that the service may write, and the error that
-- it returns.
use skibios.Prelude.{ℕ, update}
use skibios.Kvar.{Kernel}

pub record Frame : Type 0 where
  pub kernel : Kernel
  pub svc_num : ℕ
  pub arguments : ℕ → ℕ
  pub error : ℕ

-- `hangs` is a loop that does not end, `resets` the device reset, after which no code runs, and `faults`
-- a call of the null pointer, or a write behind an array of the kernel or straight to one of its
-- variables, whose effects are not followed.
pub data Outcome : Type 0 where
  returns : Frame → Outcome
  resets : Kernel → Outcome
  faults : Outcome
  hangs : Outcome

abbrev pub reply : Frame → Kernel → ℕ → Outcome
reply fr k e = returns (record fr { kernel = k; error = e })

-- `((task_t*)proc_obj_ptr)->error = e; error = e; goto quit_error;`
abbrev pub fail_task : Frame → Kernel → ℕ → ℕ → Outcome
fail_task fr k ptr e =
    reply fr (record k { objs = update k.objs ptr (record (k.objs ptr) { error = e }) }) e
