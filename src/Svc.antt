-- ===== src/Svc.antt =====
-- The service codes of src/include/svc.h.
use skibios.Prelude.{ℕ}

abbrev pub create_task : ℕ
create_task = 10

abbrev pub hand_over : ℕ
hand_over = 11

abbrev pub kill_task : ℕ
kill_task = 12

abbrev pub hibernate : ℕ
hibernate = 13

abbrev pub priority_promote : ℕ
priority_promote = 16

abbrev pub priority_demote : ℕ
priority_demote = 17

abbrev pub invoke_base : ℕ
invoke_base = 18

abbrev pub release_base : ℕ
release_base = 19

abbrev pub start_scheduler : ℕ
start_scheduler = 20

abbrev pub int_enable : ℕ
int_enable = 21

abbrev pub int_disable : ℕ
int_disable = 22

abbrev pub set_priority : ℕ
set_priority = 23

abbrev pub int_register : ℕ
int_register = 24

abbrev pub device_reset : ℕ
device_reset = 40

abbrev pub enable_umpu : ℕ
enable_umpu = 41

abbrev pub disable_umpu : ℕ
disable_umpu = 42

abbrev pub cpu_freq : ℕ
cpu_freq = 43

abbrev pub grant_permission : ℕ
grant_permission = 44

abbrev pub hwreg_write : ℕ
hwreg_write = 45

abbrev pub hwreg_read : ℕ
hwreg_read = 46
