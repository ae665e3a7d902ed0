-- ===== src/Guest/Mode/Examples.antt =====
-- A processor that gets to long mode, and one that does not.
use virt_learn_program.Base.{◌≡◌, ◌==◌, ◌||◌, ◌&&◌, ◌⊎◌, true, false, some, refl, arith}
use virt_learn_program.Guest.Memory.{qword_at}
use virt_learn_program.Guest.Paging.Walk.{walk}
use virt_learn_program.Guest.Mode.{start, entry32, open_protected_mode, open_sse}
use virt_learn_program.Guest.Mode.Processor.{Features, Cpu, goes_on, protection_fault, IsLong}
use virt_learn_program.Guest.Mode.Start.{IsFound, start-IsLong}

abbrev capable : Features
capable = record {
  cr4_bit = λ n. n == 5 || (n == 9 || n == 13);
  efer_bit = λ n. n == 8 || n == 10;
  edx_of_leaf1 = 0x40;
  apic_base = 0xfee00900;
}

-- After a reset: the cache is off.
abbrev reset : Cpu
reset = record { cr0 = 0x60000010; cr3 = 0; cr4 = 0; efer = 0; memory = λ a. 0 }

reset-IsFound : IsFound capable reset
reset-IsFound = record {
  real = record { unpaged = refl; cache = refl };
  cr4_fits = refl;
  efer_fits = refl;
  reported = refl;
  first = refl;
}

-- The last byte of the text screen.
start-IsLong_example :
    ((((capable.cr4_bit 9 && capable.cr4_bit 13) && (capable.cr4_bit 5 && capable.efer_bit 8))
        ≡ true)
      × (cpu' : Cpu) × (start capable reset ≡ goes_on cpu')
      × IsLong cpu'
      × (walk (qword_at cpu'.memory) cpu'.cr3 0xb9fff
          ≡ some (record { page_size = 0x1000; physical = 0xb9fff; user = true; writable = true })))
    ⊎ ((((capable.cr4_bit 9 && capable.cr4_bit 13) && (capable.cr4_bit 5 && capable.efer_bit 8))
          ≡ false)
        × (start capable reset ≡ protection_fault))
start-IsLong_example =
    start-IsLong capable reset 19
      (record { virtual = 0xb9000; page_size = 0x1000; physical = 0xb9000; user = true }) 0xfff
      reset-IsFound refl (omega arith)

-- A processor that does not offer virtualization to the guest.
start-no_virtualization :
    start (record capable { cr4_bit = λ n. n == 5 || n == 9 }) reset ≡ protection_fault
unfolding start entry32 open_protected_mode open_sse
start-no_virtualization = refl
