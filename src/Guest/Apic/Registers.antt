-- ===== src/Guest/Apic/Registers.antt =====
-- asm/apic.h: where the registers of the local APIC are.
use virt_learn_program.Base.{ℕ}

pub data Reg : Type 0 where
  apic_id apic_ver tpr apr ppr eoi rrd ldr dfr svr isr0 isr1 isr2 isr3 isr4 isr5 isr6 : Reg
  isr7 tmr0 tmr1 tmr2 tmr3 tmr4 tmr5 tmr6 tmr7 irr0 irr1 irr2 irr3 irr4 irr5 irr6 irr7 : Reg
  esr icr0 icr1 lvt_cmci lvt_timer lvt_thermal lvt_perfmon lvt_lint0 lvt_lint1 : Reg
  lvt_error timer_icr timer_ccr timer_dcr : Reg

-- The offset of a register from the start of the local APIC's page.
abbrev pub offset : Reg → ℕ
offset apic_id = 0x20
offset apic_ver = 0x30
offset tpr = 0x80
offset apr = 0x90
offset ppr = 0xa0
offset eoi = 0xb0
offset rrd = 0xc0
offset ldr = 0xd0
offset dfr = 0xe0
offset svr = 0xf0
offset isr0 = 0x100
offset isr1 = 0x110
offset isr2 = 0x120
offset isr3 = 0x130
offset isr4 = 0x140
offset isr5 = 0x150
offset isr6 = 0x160
offset isr7 = 0x170
offset tmr0 = 0x180
offset tmr1 = 0x190
offset tmr2 = 0x1a0
offset tmr3 = 0x1b0
offset tmr4 = 0x1c0
offset tmr5 = 0x1d0
offset tmr6 = 0x1e0
offset tmr7 = 0x1f0
offset irr0 = 0x200
offset irr1 = 0x210
offset irr2 = 0x220
offset irr3 = 0x230
offset irr4 = 0x240
offset irr5 = 0x250
offset irr6 = 0x260
offset irr7 = 0x270
offset esr = 0x280
offset icr0 = 0x300
offset icr1 = 0x310
offset lvt_cmci = 0x2f0
offset lvt_timer = 0x320
offset lvt_thermal = 0x330
offset lvt_perfmon = 0x340
offset lvt_lint0 = 0x350
offset lvt_lint1 = 0x360
offset lvt_error = 0x370
offset timer_icr = 0x380
offset timer_ccr = 0x390
offset timer_dcr = 0x3e0
