-- ===== src/Guest/Apic/Switch.antt =====
-- asm/apic64.S: looking for the local APIC, and switching it on and off.
use virt_learn_program.Base.{
  ℕ, ◌+◌, ◌-◌, ◌*◌, ◌/◌, ◌%◌, ◌^◌, ◌==◌, bit_or, test_bit, if◌then◌else◌, Option, none, some,
}
use virt_learn_program.Guest.Memory.{Memory, qword_at}
use virt_learn_program.Guest.Paging.Walk.{Translation, walk}
use virt_learn_program.Guest.Apic.Registers.{Reg, offset}

-- `edx` and `ecx` of leaf 1.
unfoldable pub support_apic : ℕ → ℕ
support_apic edx = test_bit 9 edx

unfoldable pub support_x2apic : ℕ → ℕ
support_x2apic ecx = test_bit 21 ecx

abbrev pub bts : ℕ → ℕ → ℕ
bts n v = bit_or v (2 ^ n)

abbrev pub btr : ℕ → ℕ → ℕ
btr n v = v - test_bit n v * 2 ^ n

-- The halves of IA32_APIC_BASE, which has the page of the registers, and the registers by their
-- offset.
pub record LocalApic : Type 0 where
  pub base_low : ℕ
  pub base_high : ℕ
  pub registers : ℕ → ℕ

abbrev pub page_of : LocalApic → ℕ
page_of a = (a.base_high * 2 ^ 32 + a.base_low) / 0x1000

-- The register that a translated address is, if its page is the local APIC's.
abbrev pub register_of : ℕ → Option Translation → Option ℕ
register_of page none = none
register_of page (some t) = if t.physical / 0x1000 == page then some (t.physical % 0x1000) else none

abbrev pub reached : Memory → LocalApic → ℕ → Option ℕ
reached mem a va = register_of (page_of a) (walk (qword_at mem) 0x200000 va)

abbrev pub changed : LocalApic → (ℕ → ℕ) → Option ℕ → Option LocalApic
changed a f none = none
changed a f (some o) =
    some (record a { registers = λ r. if r == o then f (a.registers o) else a.registers r })

-- A local APIC that bit 11 of its base register switches off answers no access to its page: what is
-- stored there goes to none of its registers.
abbrev pub stored : LocalApic → (ℕ → ℕ) → Option ℕ → Option LocalApic
stored a f none = none
stored a f (some r) = if test_bit 11 a.base_low == 0 then some a else changed a f (some r)

-- With the memory that the page tables are in; none if the store is not to the page.
unfoldable pub enable_apic : Memory → LocalApic → Option LocalApic
enable_apic mem a =
    let a' = record a { base_low = bts 11 a.base_low } in
    stored a' (bts 8) (reached mem a' (0x800000 + offset Reg.svr))

unfoldable pub disable_apic : Memory → LocalApic → Option LocalApic
disable_apic mem a =
    let a' = record a { base_low = btr 11 a.base_low } in
    stored a' (btr 8) (reached mem a' (0x800000 + offset Reg.svr))
