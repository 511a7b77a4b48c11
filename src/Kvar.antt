-- ===== src/Kvar.antt =====
-- The kernel's variables (src/kvar.c, src/include/kvar.h), the task objects (src/include/task_obj.h)
-- and the task states (src/include/defines.h). A pointer is an address; the words of the memory and
-- the device registers are `mem`, and the `task_t` objects, which the kernel reaches by pointer, are
-- `objs`. The two columns of `priority_Array` are two arrays.
use skibios.Prelude.{ℕ, Bool, true, false}

-- TASK_STATE_...
abbrev pub task_state_active : ℕ
task_state_active = 40

abbrev pub task_state_sleep : ℕ
task_state_sleep = 41

abbrev pub task_state_idle : ℕ
task_state_idle = 42

abbrev pub task_state_hold : ℕ
task_state_hold = 43

abbrev pub task_state_hibernate_g : ℕ
task_state_hibernate_g = 80

abbrev pub task_state_hibernate_l : ℕ
task_state_hibernate_l = 81

abbrev pub hibernate_state_mask : ℕ
hibernate_state_mask = 0x80

abbrev pub hibernate_rev_mask : ℕ
hibernate_rev_mask = 0x10000

-- task_t
pub record Task : Type 0 where
  pub error : ℕ
  pub task_id : ℕ
  pub priority : ℕ
  pub ptr_func : ℕ
  pub hibernate : ℕ
  pub op1 : ℕ
  pub op2 : ℕ
  pub value : ℕ

pub record Kernel : Type 0 where
  pub current_task : ℕ
  pub next_task : ℕ
  pub max_level : ℕ
  pub maxp_level : ℕ
  pub alc : ℕ
  pub hlc : ℕ
  pub alcp : ℕ
  pub hlcp : ℕ
  pub task_count : ℕ
  pub total_task_count : ℕ
  pub lstash_ptr : ℕ
  pub pstack_addr : ℕ
  pub cpu_freq : ℕ
  pub task_obj : ℕ → ℕ
  pub psp_array : ℕ → ℕ
  -- priority_Array[.][TASK_PRIO_CURRENT] and priority_Array[.][TASK_PRIO_STASHED]
  pub prio_current : ℕ → ℕ
  pub prio_stashed : ℕ → ℕ
  pub mutex_stash : ℕ → ℕ
  pub level_stash : ℕ → ℕ
  pub jmp_list : ℕ → ℕ
  pub state : ℕ → ℕ
  pub task_id : ℕ → ℕ
  pub permissions : ℕ → ℕ
  pub op1 : ℕ → ℕ
  pub op2 : ℕ → ℕ
  pub hib_value : ℕ → ℕ
  pub invocated_task : ℕ
  pub invocated_args : ℕ
  pub self_kill : Bool
  pub enable_dws : Bool
  pub first_start : Bool
  pub normal_schedule : Bool
  pub mem : ℕ → ℕ
  pub objs : ℕ → Task

-- The variables when `kernel_init` begins: those of `.kdat` by their initializers, those of `.kbss` zero
-- (src/startup.c clears it). Memory and task objects are what they are.
abbrev pub initial_kernel : (ℕ → ℕ) → (ℕ → Task) → Kernel
initial_kernel mem objs = record {
  current_task = 0;
  next_task = 0;
  max_level = 0;
  maxp_level = 0;
  alc = 0;
  hlc = 0;
  alcp = 0;
  hlcp = 0;
  task_count = 0;
  total_task_count = 0;
  lstash_ptr = 1;
  pstack_addr = 0;
  cpu_freq = 0;
  task_obj = λ i. 0;
  psp_array = λ i. 0;
  prio_current = λ i. 0;
  prio_stashed = λ i. 0;
  mutex_stash = λ i. 0;
  level_stash = λ i. 0;
  jmp_list = λ i. 0;
  state = λ i. 0;
  task_id = λ i. 0;
  permissions = λ i. 0;
  op1 = λ i. 0;
  op2 = λ i. 0;
  hib_value = λ i. 0;
  invocated_task = 0;
  invocated_args = 0;
  self_kill = false;
  enable_dws = true;
  first_start = false;
  normal_schedule = true;
  mem = mem;
  objs = objs;
}
