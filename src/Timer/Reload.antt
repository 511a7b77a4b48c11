-- ===== src/Timer/Reload.antt =====
-- The reload value of the system timer (`os_timer_config` of src/arch/arm-m3m4/os_timer.c).
use skibios.Config.{Config}
