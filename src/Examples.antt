-- ===== src/Examples.antt =====
-- Small states of the kernel on which the theorems are tried: three task slots, of which the base task and
-- one more task are in use.
pub mod Scheduling
pub mod Tasks
pub mod Calls
pub mod Running
pub mod Sharing
pub mod Porting
pub mod Waiting
pub mod Allocating
use skibios.Prelude.{
  ℕ, ◌-◌, refl, ◌==◌, ◌&&◌, true, false, leb, ltb, List, [], ◌∷◌, arith, if◌then◌else◌, update,
}
use skibios.Config.{Config, IsSupported}
use skibios.Kvar.{
  Kernel, Task, initial_kernel, task_state_sleep, task_state_active, task_state_idle,
}
use skibios.Service.{Frame}
use skibios.Ring.{IsRing}

abbrev pub three_slots : Config
three_slots = record {
  max_task_count = 3;
  task_stack_size = 64;
  task_per_sec = 100;
  kernel_start_address = 0x20000000;
  num_of_interrupts = 20;
  proc_heap_addr = 0x20001000;
  base_task_addr = 500;
  base_mutex_addr = 600;
  resolve_end_addr = 700;
  base_task_func = 800;
  scheduler_addr = 900;
  vector_ram = 0x20000000;
  svc_handler_addr = 910;
  pendsv_handler_addr = 920;
  mem_fault_handler_addr = 930;
  bus_fault_handler_addr = 940;
  disable_buffer = false;
  kernel_region_size = 12;
  kernel_region_srd = 0;
  mpu_pstack_size = 9;
  mpu_table_start = 0x20001000;
  is_kernel_var = λ a. leb 0x20000000 a && ltb a 0x20001000;
}

pub three_slots-IsSupported : IsSupported three_slots
three_slots-IsSupported = record {
  some_task = omega arith;
  few_tasks = omega arith;
  base_object = refl;
}

abbrev pub new_task : Task
new_task = record {
  error = 0;
  task_id = 0;
  priority = 9;
  ptr_func = 1000;
  hibernate = 0;
  op1 = 0;
  op2 = 0;
  value = 0;
}

-- The base task sleeps at level 0, and task 1 runs at level 5.
abbrev pub two_tasks : Kernel
two_tasks = record (initial_kernel (λ a. 0) (λ a. new_task)) {
  current_task = 1;
  next_task = 1;
  max_level = 5;
  maxp_level = 127;
  alc = 1;
  task_count = 2;
  total_task_count = 2;
  lstash_ptr = 2;
  pstack_addr = 0x20001000;
  task_obj = λ i. if i == 1 then 400 else (if i == 0 then 500 else 0);
  prio_current = λ i. if i == 1 then 5 else 0;
  level_stash = λ i. if i == 1 then 5 else 0;
  jmp_list = λ i. if i == 0 then 1 else (if i == 1 then 255 else 0);
  state = λ i.
      if i == 0 then task_state_sleep else (if i == 1 then task_state_active else task_state_idle);
  task_id = λ i. if i == 0 then 1 else (if i == 1 then 65538 else 0);
  permissions = λ i. if i == 0 then 0xFFFF else 0;
  first_start = true;
}

pub two_tasks-IsRing : IsRing 3 two_tasks (1 ∷ [])
two_tasks-IsRing = record {
  chain = ground arith;
  below = ground arith;
  live = λ i h. ground arith;
  unlinked = λ i h. ground arith;
}

-- A call by task 1 with up to two arguments.
abbrev pub call : Kernel → ℕ → ℕ → ℕ → Frame
call k code first second = record {
  kernel = k;
  svc_num = code;
  arguments = update (update (λ i. 0) 0 first) 1 second;
  error = 0;
}
