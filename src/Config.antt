-- ===== src/Config.antt =====
-- What the build generates and the linker places: `param.h` (objgen/objgen.py), `mpu_table`
-- (src/arch/arm-m3m4/script/devattrb.py) and the addresses of kernel objects. All of it is a
-- parameter of the model.
use skibios.Prelude.{Bool, false, ℕ, ◌≡◌, ◌≤◌, ◌<◌}

pub record Config : Type 0 where
  -- MAX_TASK_COUNT, the size of every kernel array
  pub max_task_count : ℕ
  -- TASK_STACK_SIZE, in words
  pub task_stack_size : ℕ
  -- TASK_PER_SEC
  pub task_per_sec : ℕ
  -- KERNEL_START_ADDRESS
  pub kernel_start_address : ℕ
  -- NUM_OF_INTERRUPTS
  pub num_of_interrupts : ℕ
  -- &_proc_heap_addr, &base_task, &base_mutex, &resolve_end, &BaseTask, &scheduler
  pub proc_heap_addr : ℕ
  pub base_task_addr : ℕ
  pub base_mutex_addr : ℕ
  pub resolve_end_addr : ℕ
  pub base_task_func : ℕ
  pub scheduler_addr : ℕ
  -- __VECTOR_RAM, and the handlers svc_handler, pendsv_handler, mem_fault_handler, bus_fault_handler
  pub vector_ram : ℕ
  pub svc_handler_addr : ℕ
  pub pendsv_handler_addr : ℕ
  pub mem_fault_handler_addr : ℕ
  pub bus_fault_handler_addr : ℕ
  -- DISABLE_BUFFER >= 1
  pub disable_buffer : Bool
  -- KERNEL_REGION_SIZE, KERNEL_REGION_SRD, MPU_PSTACK_SIZE, mpu_table[0]
  pub kernel_region_size : ℕ
  pub kernel_region_srd : ℕ
  pub mpu_pstack_size : ℕ
  pub mpu_table_start : ℕ
  -- Is the address, of a word or of a task object, in one of the kernel's own variables? The object
  -- `base_task` is not counted among them.
  pub is_kernel_var : ℕ → Bool

-- README.md: at most 120 tasks, and at least the base task. So every index and every offset between
-- two tasks fits an `int8_t`. The task object of the base task is no other variable of the kernel.
pub record IsSupported (c : Config) : Type 0 where
  pub some_task : 0 < c.max_task_count
  pub few_tasks : c.max_task_count ≤ 120
  pub base_object : c.is_kernel_var c.base_task_addr ≡ false
