-- ===== src/Vmx/Launch/Examples.antt =====
-- Two launches on a concrete machine.
use virt_learn_program.Base.{◌≡◌, refl, false, Bool, Option, none, some, [], ◌∷◌}
use virt_learn_program.Vmx.Guest.{rbx, rsi, rdi, Regs}
use virt_learn_program.Vmx.Entry.{Operands}
use virt_learn_program.Vmx.Entry.Machine.{Cpu, Memory}
use virt_learn_program.Vmx.Launch.{Outside, VmxVcpu, ExitCodes, classify, for_excp, with_dump}

abbrev codes : ExitCodes
codes = record { vmmcall = 0x81; cpuid = 0x72; msr = 0x7c; excp_base = 0x40 }

-- The last exception that is told apart, and the exit code after it.
last_exception : classify codes 83 ≡ for_excp
unfolding classify
last_exception = refl

unknown_exit : classify codes 84 ≡ with_dump 84
unfolding classify
unknown_exit = refl

-- A guest that leaves 99 in every register, and a processor that refuses every entry.
abbrev runs_once : Bool → Regs → Option Regs
runs_once resumes r = some λ x. 99

abbrev runs_never : Bool → Regs → Option Regs
runs_never resumes r = none

abbrev memory : Memory
memory = record {
  regs_at = 0x8000;
  stack_base = 0xf000;
  host_rsp_field = 0x6c14;
  host_rip = 0x7000;
  return_label = 0x7000;
  enter = runs_once;
}

abbrev operands : Operands
operands = record { vmx = rbx; regs = rsi; launched = rdi; fail = 1 }

abbrev vcpu : VmxVcpu
vcpu = record { regs = λ r. 7; fail = 0; launched = false }

abbrev cpu : Cpu
cpu = record {
  registers = λ r. 0;
  stack = 0x1234 ∷ 5 ∷ [];
  regs = λ r. 0;
  host_rsp = 0;
  vmcs_host_rsp = 0;
  equal = false;
  refused = false;
}

abbrev outside : Outside
outside = record { load = λ r. r; put = λ r. r }
