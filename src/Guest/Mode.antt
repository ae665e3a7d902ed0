-- ===== src/Guest/Mode.antt =====
-- asm/learn.S and asm/page64.S: from real mode to long mode.
pub mod Processor
pub mod Registers
pub mod Long
pub mod Start
mod Examples
use virt_learn_program.Base.{ℕ, ◌^◌, bit_or, if◌then◌else◌, Option, none, some}
use virt_learn_program.Guest.Memory.{Memory}
use virt_learn_program.Guest.Paging.{init_paging}
use virt_learn_program.Guest.Mode.Processor.{
  Features, Cpu, Ends, goes_on, out_of_rounds, ◌>>=◌, is_set, write_cr0, write_cr4, write_efer,
}

-- `bts` of a register.
abbrev pub bts : ℕ → ℕ → ℕ
bts n eax = bit_or eax (2 ^ n)

unfoldable pub open_protected_mode : Cpu → Ends
open_protected_mode cpu = write_cr0 (bts 0 cpu.cr0) cpu

unfoldable pub open_sse : Features → Cpu → Ends
open_sse f cpu = write_cr4 f (bts 13 (bts 9 cpu.cr4)) cpu

unfoldable pub pae_enable : Features → Cpu → Ends
pae_enable f cpu = if is_set 6 f.edx_of_leaf1 then write_cr4 f (bts 5 cpu.cr4) cpu else goes_on cpu

-- The memory that the tables are written to, if the loops end.
abbrev pub with_memory : Cpu → Option Memory → Ends
with_memory cpu none = out_of_rounds
with_memory cpu (some mem) = goes_on (record cpu { memory = mem })

unfoldable pub set_lme : Features → Cpu → Ends
set_lme f cpu = write_efer f (bts 8 cpu.efer) cpu

unfoldable pub open_long_mode : Cpu → Ends
open_long_mode cpu = write_cr0 (bts 31 cpu.cr0) cpu

-- `entry32`, up to the jump to the code of 64 bits.
unfoldable pub entry32 : Features → Cpu → Ends
entry32 f cpu =
    open_sse f cpu
    >>= pae_enable f
    >>= (λ c. with_memory c (init_paging f.apic_base c.memory))
    >>= (λ c. set_lme f (record c { cr3 = 0x200000 }))
    >>= open_long_mode

-- From `_start` on.
unfoldable pub start : Features → Cpu → Ends
start f cpu = open_protected_mode cpu >>= entry32 f
