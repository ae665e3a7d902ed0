-- ===== src/Guest/Gates/Vectors.antt =====
-- asm/system_data.h: the numbers of the interrupts.
use virt_learn_program.Base.{ℕ}

pub data Vector : Type 0 where
  de_handler db_handler nmi_handler bp_handler of_handler br_handler ud_handler nm_handler : Vector
  df_handler ts_handler np_handler ss_handler gp_handler pf_handler mf_handler ac_handler : Vector
  mc_handler xf_handler sx_handler : Vector
  system_service pic8259a_timer keyboard fpu : Vector
  apic_timer apic_lint0 apic_lint1 apic_perfmon apic_error : Vector

abbrev pub number : Vector → ℕ
number de_handler = 0x0
number db_handler = 0x1
number nmi_handler = 0x2
number bp_handler = 0x3
number of_handler = 0x4
number br_handler = 0x5
number ud_handler = 0x6
number nm_handler = 0x7
number df_handler = 0x8
number ts_handler = 0xa
number np_handler = 0xb
number ss_handler = 0xc
number gp_handler = 0xd
number pf_handler = 0xe
number mf_handler = 0x10
number ac_handler = 0x11
number mc_handler = 0x12
number xf_handler = 0x13
number sx_handler = 0x1f
number system_service = 0x40
number pic8259a_timer = 0x20
number keyboard = 0x21
number fpu = 0x2d
number apic_timer = 0x30
number apic_lint0 = 0x31
number apic_lint1 = 0x32
number apic_perfmon = 0x33
number apic_error = 0x34
