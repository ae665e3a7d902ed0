-- ===== src/Guest/Mode/Processor.antt =====
-- The processor's control registers, for asm/learn.S: what it refuses with a protection fault, and
-- what its instructions leave. Independent of the program.
use virt_learn_program.Base.{
  ◌≡◌, not, ℕ, zero, suc, ◌^◌, ◌==◌, bit_or, test_bit, if◌then◌else◌, Bool, true, false, ◌&&◌,
}
use virt_learn_program.Guest.Memory.{Memory}

-- What a processor offers: the bits of `cr4` and of the low half of the extended feature register
-- that may be set, and the low half of its register for the local APIC.
pub record Features : Type 0 where
  pub cr4_bit : ℕ → Bool
  pub efer_bit : ℕ → Bool
  pub edx_of_leaf1 : ℕ
  pub apic_base : ℕ

-- The registers of 32 bits, and the memory.
pub record Cpu : Type 0 where
  pub cr0 : ℕ
  pub cr3 : ℕ
  pub cr4 : ℕ
  pub efer : ℕ
  pub memory : Memory

-- How a piece of code ends: it goes on, is stopped by a protection fault, or runs out of rounds.
pub data Ends : Type 0 where
  goes_on : Cpu → Ends
  protection_fault out_of_rounds : Ends

infixl 5 ◌>>=◌
abbrev pub ◌>>=◌ : Ends → (Cpu → Ends) → Ends
goes_on cpu >>= f = f cpu
protection_fault >>= f = protection_fault
out_of_rounds >>= f = out_of_rounds

abbrev pub is_set : ℕ → ℕ → Bool
is_set n v = test_bit n v == 1

-- Each of the lowest bits that is set may be set.
abbrev pub accepts : (ℕ → Bool) → ℕ → ℕ → Bool
accepts offered zero v = true
accepts offered (suc n) v =
    let rest = accepts offered n v in
    if is_set n v then (if offered n then rest else false) else rest

abbrev pub write_cr4 : Features → ℕ → Cpu → Ends
write_cr4 f v cpu =
    if accepts f.cr4_bit 32 v then goes_on (record cpu { cr4 = v }) else protection_fault

-- The long mode bit (8) is fixed while paging is on.
abbrev pub write_efer : Features → ℕ → Cpu → Ends
write_efer f v cpu =
    if is_set 31 cpu.cr0
    then protection_fault
    else if accepts f.efer_bit 32 v
    then goes_on (record cpu { efer = v })
    else protection_fault

-- Paging (31) needs protection (0), and to be turned on in long mode also PAE (5 of `cr4`); not
-- write through (29) needs the cache to be off (30). Paging with the long mode bit makes long mode
-- active (10 of the extended feature register).
abbrev pub write_cr0 : ℕ → Cpu → Ends
write_cr0 v cpu =
    if is_set 31 v
    then (if is_set 0 v
        then (if is_set 29 v && not (is_set 30 v)
            then protection_fault
            else if is_set 8 cpu.efer
            then (if is_set 5 cpu.cr4
                then goes_on (record cpu { cr0 = v; efer = bit_or cpu.efer (2 ^ 10) })
                else protection_fault)
            else goes_on (record cpu { cr0 = v }))
        else protection_fault)
    else if is_set 29 v && not (is_set 30 v)
    then protection_fault
    else goes_on (record cpu { cr0 = v })

-- Long mode is on: protection, paging and PAE are, and the processor has made it active.
pub record IsLong (cpu : Cpu) : Type 0 where
  pub protected : is_set 0 cpu.cr0 ≡ true
  pub paging : is_set 31 cpu.cr0 ≡ true
  pub pae : is_set 5 cpu.cr4 ≡ true
  pub active : is_set 10 cpu.efer ≡ true
