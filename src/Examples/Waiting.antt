-- ===== src/Examples/Waiting.antt =====
-- The theorems on hibernation, on the timer and on interrupts, on the small states.
use skibios.Prelude.{ℕ, ◌+◌, ◌≡◌, ◌≢◌, refl, some, false, arith, if◌then◌else◌, update}
use skibios.Error.{error_none}
use skibios.Kvar.{Kernel, task_state_hibernate_g, task_state_sleep}
use skibios.Hardware.{write_reg}
use skibios.Scheduler.{check_hibernate}
use skibios.Api.Hibernate.{goes_on, hibernate}
use skibios.Api.Hibernate.Wake.{hibernate-check_hibernate}
use skibios.Interrupt.{irq_bit, arch_interrupt_enable, arch_interrupt_disable}
use skibios.Interrupt.Lines.{enable_register, disable_register, interrupt_lines}
use skibios.Examples.{three_slots, two_tasks}

-- A clock at 704 counts up.
abbrev clock : ℕ → Kernel → Kernel
clock turn m = record m { mem = update m.mem 704 (m.mem 704 + 1) }

hibernate-check_hibernate_example :
    (k' : Kernel) × (hibernate three_slots 5 clock two_tasks 704 708 3 false
      ≡ some (k', error_none))
    × ((i : ℕ) → i ≢ 1 → k'.state i ≡ two_tasks.state i)
    × ((mem : ℕ → ℕ)
        → (check_hibernate (record k' { mem = mem }) 1).state 1 ≡ (
            if goes_on (record two_tasks { mem = mem }) 704 708 3 false
            then task_state_hibernate_g
            else task_state_sleep))
hibernate-check_hibernate_example =
    hibernate-check_hibernate three_slots 5 clock two_tasks 704 708 3 false (omega arith) refl

interrupt_lines_example :
    (arch_interrupt_enable two_tasks 20
      ≡ some (write_reg (enable_register 20) (irq_bit 20) two_tasks, error_none))
    × (arch_interrupt_disable two_tasks 20
        ≡ some (write_reg (disable_register 20) (irq_bit 20) two_tasks, error_none))
    × (enable_register 20 ≢ disable_register 52)
    × (enable_register 20 ≡ enable_register 52 → irq_bit 20 ≡ irq_bit 52 → ◌≡◌ {A = ℕ} 20 52)
    × (disable_register 20 ≡ disable_register 52 → irq_bit 20 ≡ irq_bit 52 → ◌≡◌ {A = ℕ} 20 52)
interrupt_lines_example =
    interrupt_lines two_tasks 20 52 (omega arith) (omega arith) (omega arith) (omega arith)
