-- ===== src/Interrupt.antt =====
-- Interrupt control: `arch_interrupt_…` of src/arch/arm-m3m4/arch_interrupt.c, and the services of
-- src/service/svr_interrupts.c that guard it.
pub mod Lines
use skibios.Prelude.{
  ℕ, ◌+◌, ◌-◌, ◌*◌, ◌/◌, ◌%◌, ◌^◌, Option, none, some, ◌&&◌, ltb, leb, if◌then◌else◌, u8, u32,
  bit_and, bit_or,
}
use skibios.Config.{Config}
use skibios.Error.{error_none, error_insufficient_permission}
use skibios.Kvar.{Kernel}
use skibios.Hardware.{write_reg}
use skibios.Permission.{has_permission, permission_intctrl}
use skibios.Service.{Frame, Outcome, faults, reply}

-- `g_pui32EnRegs`, `g_pui32Dii16Regs` and `prioreg`, whose entries follow one another by a word;
-- `none` is a read behind the table.
abbrev pub nvic_en : ℕ → Option ℕ
nvic_en q = if ltb q 4 then some (0xE000E100 + 4 * q) else none

abbrev pub nvic_dis : ℕ → Option ℕ
nvic_dis q = if ltb q 4 then some (0xE000E180 + 4 * q) else none

abbrev pub nvic_pri : ℕ → Option ℕ
nvic_pri q = if ltb q 35 then some (0xE000E400 + 4 * q) else none

-- `1 << ((interrupt - 16) & 31)`
abbrev pub irq_bit : ℕ → ℕ
irq_bit irq = 2 ^ ((irq - 16) % 32)

-- The result is the new kernel and the error code.
unfoldable pub arch_interrupt_enable : Kernel → ℕ → Option (Kernel × ℕ)
arch_interrupt_enable k irq =
    if ltb irq 16
    then some (k, error_insufficient_permission)
    else (elim (nvic_en ((irq - 16) / 32)) [
      | none ↦ none
      | some r ↦ some (write_reg r (irq_bit irq) k, error_none)
    ])

unfoldable pub arch_interrupt_disable : Kernel → ℕ → Option (Kernel × ℕ)
arch_interrupt_disable k irq =
    if ltb irq 16
    then some (k, error_insufficient_permission)
    else (elim (nvic_dis ((irq - 16) / 32)) [
      | none ↦ none
      | some r ↦ some (write_reg r (irq_bit irq) k, error_none)
    ])

-- The vector table stands at the start of the kernel's memory.
unfoldable pub arch_interrupt_register : Config → Kernel → ℕ → ℕ → Kernel × ℕ
arch_interrupt_register c k irq handler =
    if ltb irq 16
    then (k, error_insufficient_permission)
    else (write_reg (u32 (c.kernel_start_address + irq * 4)) handler k, error_none)

-- Both parameters are `uint8_t`; PRIORITY_WRITE_MASK is 0xE0.
unfoldable pub arch_interrupt_priority : Kernel → ℕ → ℕ → Option (Kernel × ℕ)
arch_interrupt_priority k interrupt priority =
    let irq = u8 interrupt in
    let bits = bit_and 0xE0 (u8 priority) * 2 ^ (8 * ((irq - 16) % 4)) in
    if ltb irq 16
    then some (k, error_insufficient_permission)
    else (elim (nvic_pri ((irq - 16) / 4)) [
      | none ↦ none
      | some r ↦ some (write_reg r (bit_or (k.mem r) bits) k, error_none)
    ])

abbrev pub finish : Frame → Option (Kernel × ℕ) → Outcome
finish fr none = faults
finish fr (some (k, e)) = reply fr k e

-- The guard that the four services share.
abbrev pub with_permission : Frame → Option (Kernel × ℕ) → Outcome
with_permission fr result =
    if has_permission fr.kernel permission_intctrl
    then finish fr result
    else reply fr fr.kernel error_insufficient_permission

unfoldable pub svc_service_int_enable : Frame → Outcome
svc_service_int_enable fr = with_permission fr (arch_interrupt_enable fr.kernel (fr.arguments 0))

unfoldable pub svc_service_int_disable : Frame → Outcome
svc_service_int_disable fr = with_permission fr (arch_interrupt_disable fr.kernel (fr.arguments 0))

unfoldable pub svc_service_int_set_priority : Frame → Outcome
svc_service_int_set_priority fr =
    with_permission fr (arch_interrupt_priority fr.kernel (fr.arguments 0) (fr.arguments 1))

-- The number has no upper bound, so the entry may be written to a variable of the kernel.
unfoldable pub svc_service_int_register : Config → Frame → Outcome
svc_service_int_register c fr =
    let irq = fr.arguments 0 in
    let registered = some (arch_interrupt_register c fr.kernel irq (fr.arguments 1)) in
    with_permission fr (
      if leb 16 irq && c.is_kernel_var (u32 (c.kernel_start_address + irq * 4))
      then none
      else registered)
