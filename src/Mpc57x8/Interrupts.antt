-- ===== src/Mpc57x8/Interrupts.antt =====
-- The interrupts of the port to MPC57x8 (src/arch/mpc57x8/arch_interrupt.c).
use skibios.Prelude.{
  ℕ, zero, suc, ◌+◌, ◌-◌, ◌/◌, ◌%◌, ◌^◌, ◌<◌, ◌≡◌, ◌≢◌, refl, some, ◌==◌, ltb, leb, ◌&&◌,
  if◌then◌else◌, update, arith,
}
use skibios.Prelude.Loops.{for_range}
use skibios.Error.{error_none}
use skibios.Mpc57x8.{
  Port, Device, interrupt_priority_default, number_of_cores, arch_interrupt_enable,
  arch_interrupt_disable, arch_interrupt_register, vector_table_relocate,
}

core_mask : (core : ℕ) → core < 3 → 8 / 2 ^ core % 16 ≡ 2 ^ (3 - core)
core_mask zero l = refl
core_mask (suc zero) l = refl
core_mask (suc (suc zero)) l = refl
core_mask (suc (suc (suc core))) l = absurd (omega arith)

-- The settings of an interrupt: its cores, its priority and its handler.
abbrev pub settings : Device → ℕ → ℕ × ℕ × ℕ
settings d i = (d.prc_seln i, d.prin i, d.vector_ram i)

-- An interrupt is registered, enabled and disabled again: after the second call it goes to the calling
-- core alone, at the default priority, to its handler; the third takes the priority away and nothing
-- else. No call changes the settings of another interrupt, and each returns ERROR_NONE.
pub interrupt_cycle :
    (d : Device) (i handler : ℕ)
    → d.core_id < number_of_cores
    → let (d1, e1) = arch_interrupt_register d i handler in
      let (d2, e2) = arch_interrupt_enable d1 i in
      let (d3, e3) = arch_interrupt_disable d2 i in
      (e1 + e2 + e3 ≡ error_none)
      × (settings d2 i ≡ (2 ^ (3 - d.core_id), interrupt_priority_default, handler))
      × (settings d3 i ≡ (2 ^ (3 - d.core_id), 0, handler))
      × ((j : ℕ)
          → j ≢ i
          → (settings d1 j ≡ settings d j)
            × (settings d2 j ≡ settings d j)
            × (settings d3 j ≡ settings d j))
unfolding arch_interrupt_register arch_interrupt_enable arch_interrupt_disable
interrupt_cycle d i handler l =
    let mask = core_mask d.core_id l in
    (
      refl,
      ground (arith, mask),
      ground (arith, mask),
      λ j h. (ground arith, ground arith, ground arith),
    )

copied :
    (n i : ℕ) (table v : ℕ → ℕ) (j : ℕ)
    → for_range n i (λ x u. update u x (table x)) v j
      ≡ (if leb i j && ltb j (i + n) then table j else v j)
unfolding for_range
copied zero i table v j = ground arith
copied (suc n) i table v j = ground (arith, copied n (i + 1) table (update v i (table i)) j)

-- On each of the three cores `vector_table_relocate` copies the vectors of the table, no more, and returns.
-- On the cores 0 and 1 the register IACKR of the core then holds the address of the copy; on core 2
-- it keeps what it held, and the word behind the registers is written.
pub vector_table_relocate_lem :
    (c : Port) (d : Device)
    → d.core_id < number_of_cores
    → (d' : Device) × (vector_table_relocate c d ≡ some (d', error_none))
      × ((j : ℕ)
          → d'.vector_ram j
            ≡ (if ltb j c.num_of_interrupts then d.vector_table j else d.vector_ram j))
      × (d'.iackr d.core_id ≡ (if d.core_id == 2 then d.iackr 2 else c.vector_ram_addr))
      × (d'.iackr 3 ≡ (if d.core_id == 2 then c.vector_ram_addr else d.iackr 3))
unfolding vector_table_relocate
vector_table_relocate_lem c d l =
    let copy =
      for_range c.num_of_interrupts 0 (λ n v. update v n (d.vector_table n)) d.vector_ram in
    let place : ℕ = if d.core_id == 0 then 0 else (if d.core_id == 1 then 1 else 3) in
    (
      record d { vector_ram = copy; iackr = update d.iackr place c.vector_ram_addr },
      ground arith,
      λ j. ground (arith, copied c.num_of_interrupts 0 d.vector_table d.vector_ram j),
      ground arith,
      ground arith,
    )
