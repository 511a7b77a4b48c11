-- ===== src/Error.antt =====
-- The error codes of src/include/error.h.
use skibios.Prelude.{ℕ}

abbrev pub error_none : ℕ
error_none = 0

abbrev pub error_systick_tick_value_overflow : ℕ
error_systick_tick_value_overflow = 1

abbrev pub error_out_of_memory : ℕ
error_out_of_memory = 2

abbrev pub error_resource_locked_indefinetly : ℕ
error_resource_locked_indefinetly = 3

abbrev pub error_max_process_count : ℕ
error_max_process_count = 4

abbrev pub error_process_already_running : ℕ
error_process_already_running = 5

abbrev pub error_process_is_idle : ℕ
error_process_is_idle = 6

abbrev pub error_wrong_heap_pointer : ℕ
error_wrong_heap_pointer = 8

abbrev pub error_empty_heap : ℕ
error_empty_heap = 9

abbrev pub error_insufficient_permission : ℕ
error_insufficient_permission = 11

abbrev pub error_mpu_unsupported : ℕ
error_mpu_unsupported = 12

abbrev pub error_invalid_task_priority : ℕ
error_invalid_task_priority = 13

abbrev pub error_invalid_mpu_region : ℕ
error_invalid_mpu_region = 14

abbrev pub error_invalid_mpu_address : ℕ
error_invalid_mpu_address = 15

abbrev pub error_base_process : ℕ
error_base_process = 16

abbrev pub error_no_invocation : ℕ
error_no_invocation = 17

abbrev pub error_unknown_process_id : ℕ
error_unknown_process_id = 18

abbrev pub error_scheduler_already_running : ℕ
error_scheduler_already_running = 19
