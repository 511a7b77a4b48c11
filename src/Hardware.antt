-- ===== src/Hardware.antt =====
-- Device registers of ARM M3/M4 (src/arch/arm-m3m4/regmap.h, mpu.h) and the macros of
-- src/arch/arm-m3m4/os_support.h that the kernel calls.
use skibios.Prelude.{ℕ, bit_and, bit_or, update}
use skibios.Kvar.{Kernel}

abbrev pub stctrl : ℕ
stctrl = 0xE000E010

abbrev pub streload : ℕ
streload = 0xE000E014

abbrev pub stcurrent : ℕ
stcurrent = 0xE000E018

abbrev pub intctrl : ℕ
intctrl = 0xE000ED04

abbrev pub apint : ℕ
apint = 0xE000ED0C

abbrev pub mputype : ℕ
mputype = 0xE000ED90

abbrev pub mpuctrl : ℕ
mpuctrl = 0xE000ED94

abbrev pub mpurnr : ℕ
mpurnr = 0xE000ED98

abbrev pub mpurbar : ℕ
mpurbar = 0xE000ED9C

abbrev pub mpurasr : ℕ
mpurasr = 0xE000EDA0

abbrev pub vtable : ℕ
vtable = 0xE000ED08

abbrev pub syspri2 : ℕ
syspri2 = 0xE000ED1C

abbrev pub syspri3 : ℕ
syspri3 = 0xE000ED20

abbrev pub syshndctrl : ℕ
syshndctrl = 0xE000ED24

abbrev pub actlr : ℕ
actlr = 0xE000E008

-- HWREG(address) = value
abbrev pub write_reg : ℕ → ℕ → Kernel → Kernel
write_reg address value k = record k { mem = update k.mem address value }

-- HWREG(address) |= value
abbrev pub set_bits : ℕ → ℕ → Kernel → Kernel
set_bits address value k = record k { mem = update k.mem address (bit_or (k.mem address) value) }

-- SYSTICK_INT_ENABLE | SYSTICK_ENABLE
unfoldable pub enable_scheduler : Kernel → Kernel
enable_scheduler k = write_reg stctrl (bit_or (k.mem stctrl) 0x3) k

-- SYSTICK_DISABLE & SYSTICK_INT_DISABLE
unfoldable pub disable_scheduler : Kernel → Kernel
disable_scheduler k = write_reg stctrl (bit_and (k.mem stctrl) 0xFFFFFFFC) k

-- 1 << INTCTRL_PENDSTSET
unfoldable pub trigger_scheduler : Kernel → Kernel
trigger_scheduler k = write_reg intctrl (bit_or (k.mem intctrl) 0x4000000) k

unfoldable pub scheduler_timer_reset : Kernel → Kernel
scheduler_timer_reset k = write_reg stcurrent 0 k

-- ICSR is INTCTRL.
unfoldable pub trigger_context_switch : Kernel → Kernel
trigger_context_switch k = write_reg intctrl (bit_or (k.mem intctrl) 0x10000000) k

-- APINT_VECKEY | APINT_SYSRESETREQ
unfoldable pub trigger_device_reset : Kernel → Kernel
trigger_device_reset k = write_reg apint 0x05FA0004 k
