-- ===== src/Guest/Apic/Messages.antt =====
-- asm/apic64.S: the texts between the registers.
use virt_learn_program.Base.{ℕ, List, codes}

pub data Label : Type 0 where
  apicid apicver tpr apr ppr eoi rrd ldr dfr svr inr tmr irr esr icr lvt_msg lvt_cmci lvt_timer :
      Label
  lvt_thermal lvt_perfmon lvt_lint0 lvt_lint1 lvt_error init_count current_count dcr : Label

abbrev pub content : Label → List ℕ
content apicid = codes "apic ID: 0x"
content apicver = codes "    apic version: 0x"
content tpr = codes "TPR: 0x"
content apr = codes "  APR: 0x"
content ppr = codes "  PPR: 0x"
content eoi = codes "EOI: 0x"
content rrd = codes "  RRD: 0x"
content ldr = codes "  LDR: 0x"
content dfr = codes "DFR: 0x"
content svr = codes "  SVR: 0x"
content inr = codes "ISR(7-0) : 0x"
content tmr = codes "TMR: 0x"
content irr = codes "IRR: 0x"
content esr = codes "ESR: 0x"
content icr = codes "  ICR: 0x"
content lvt_msg = codes "---------------------- Local Vector Table -----------------"
content lvt_cmci = codes "CMCI: 0x"
content lvt_timer = codes "  TIMER: 0x"
content lvt_thermal = codes "  THERMAL: 0x"
content lvt_perfmon = codes "PERFMON: 0x"
content lvt_lint0 = codes "  LINT0: 0x"
content lvt_lint1 = codes "  LINT1: 0x"
content lvt_error = codes "ERROR: 0x"
content init_count = codes "timer_ICR: 0x"
content current_count = codes "  timer_CCR: 0x"
content dcr = codes "  timer_DCR: 0x"
