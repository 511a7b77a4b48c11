-- ===== src/Interrupt/Lines.antt =====
-- Which bit of which register belongs to an interrupt (src/arch/arm-m3m4/arch_interrupt.c).
use skibios.Prelude.{
  ℕ, ◌+◌, ◌-◌, ◌*◌, ◌/◌, ◌%◌, ◌^◌, ◌≤◌, ◌<◌, ◌≡◌, ◌≢◌, subst, Bool, false, not, ◌&&◌, some, arith,
  ◌==◌,
}
use skibios.Prelude.Loops.{find_first, find_first_before}
use skibios.Error.{error_none}
use skibios.Kvar.{Kernel}
use skibios.Hardware.{write_reg}
use skibios.Interrupt.{irq_bit, arch_interrupt_enable, arch_interrupt_disable}

-- Two numbers below 32, as the digits of `x` to the base 32, with the same power of 2.
abbrev clash : ℕ → Bool
clash x = (2 ^ (x / 32) == 2 ^ (x % 32)) && not (x / 32 == x % 32)

no_clash : (x : ℕ) → x < 1024 → clash x ≡ false
unfolding find_first
no_clash x l = find_first_before 1024 0 clash x (omega arith) l

power_injective : (a b : ℕ) → a < 32 → b < 32 → 2 ^ a ≡ 2 ^ b → a ≡ b
power_injective a b la lb e =
    let x = a * 32 + b in
    let high : x / 32 ≡ a = omega arith in
    let low : x % 32 ≡ b = omega arith in
    let no : ((2 ^ a == 2 ^ b) && not (a == b)) ≡ false =
      subst (λ (p : ℕ × ℕ). ((2 ^ p.0 == 2 ^ p.1) && not (p.0 == p.1)) ≡ false)
        (λ i. (high i, low i)) (no_clash x (omega arith)) in
    ground (arith, e, no)

abbrev pub enable_register : ℕ → ℕ
enable_register i = 0xE000E100 + 4 * ((i - 16) / 32)

abbrev pub disable_register : ℕ → ℕ
disable_register i = 0xE000E180 + 4 * ((i - 16) / 32)

-- The interrupts 16 to 143 have a bit each: for any two of them, `arch_interrupt_enable` and
-- `arch_interrupt_disable` write the interrupt's bit to its register and return ERROR_NONE, no
-- register for enabling is one for disabling, and two interrupts that share register and bit are
-- the same.
pub interrupt_lines :
    (k : Kernel) (i j : ℕ)
    → 16 ≤ i
    → i < 144
    → 16 ≤ j
    → j < 144
    → (arch_interrupt_enable k i ≡ some (write_reg (enable_register i) (irq_bit i) k, error_none))
      × (arch_interrupt_disable k i
          ≡ some (write_reg (disable_register i) (irq_bit i) k, error_none))
      × (enable_register i ≢ disable_register j)
      × (enable_register i ≡ enable_register j → irq_bit i ≡ irq_bit j → i ≡ j)
      × (disable_register i ≡ disable_register j → irq_bit i ≡ irq_bit j → i ≡ j)
unfolding arch_interrupt_enable arch_interrupt_disable
interrupt_lines k i j li hi lj hj =
    let same = power_injective ((i - 16) % 32) ((j - 16) % 32) (omega arith) (omega arith) in
    (
      ground arith,
      ground arith,
      omega arith,
      λ e b. omega (arith, e, same b),
      λ e b. omega (arith, e, same b),
    )
