-- ===== src/Timer.antt =====
-- The system timer of ARM M3/M4: src/arch/arm-m3m4/os_timer.c.
pub mod Reload
use skibios.Prelude.{ℕ, ◌+◌, ◌*◌, ◌/◌, leb, if◌then◌else◌, u32, bit_and, bit_or, ◌==◌}
use skibios.Config.{Config}
use skibios.Error.{error_none, error_systick_tick_value_overflow}
use skibios.Kvar.{Kernel}
use skibios.Hardware.{write_reg, stctrl, streload, stcurrent}

-- The counter has 24 bits; SYSTICK_RELOAD_MASK is 0x00FFFFFF.
unfoldable pub os_timer_config : Config → Kernel → ℕ → Kernel × ℕ
os_timer_config c k new_cpu_freq =
    let systick_load = new_cpu_freq / c.task_per_sec in
    let k1 = write_reg streload 0 (record k { cpu_freq = new_cpu_freq }) in
    let k2 = write_reg streload (bit_and 0x00FFFFFF systick_load) k1 in
    if leb 16777216 systick_load
    then (k, error_systick_tick_value_overflow)
    else (write_reg stcurrent 0 k2, error_none)

-- SYSTICK_SYS_CLK is 4, INT_NUM_SYSTICK is 15.
unfoldable pub os_timer_init : Config → Kernel → ℕ → Kernel × ℕ
unfolding os_timer_config
os_timer_init c k new_cpu_freq =
    let (k1, error) = os_timer_config c k new_cpu_freq in
    let k2 = write_reg stctrl (bit_or (k1.mem stctrl) 0x4) k1 in
    let k3 = write_reg (u32 (c.kernel_start_address + 15 * 4)) c.scheduler_addr k2 in
    if error == 0 then (k3, error) else (k1, error)
