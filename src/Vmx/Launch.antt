-- ===== src/Vmx/Launch.antt =====
-- vmx_mod/vmx.c: `vmx_run` and `svm_launch`, which run the guest once around the assembly of
-- `__vmx_run_vcpu`.
pub mod Again
mod Examples
use virt_learn_program.Base.{
  ℕ, ◌+◌, ◌%◌, ◌==◌, ◌&&◌, leb, Bool, true, false, if◌then◌else◌, ℤ, pos, Outcome, ok, ◌>>=◌,
}
use virt_learn_program.Vmx.Guest.{rdx, Regs, update}
use virt_learn_program.Vmx.Entry.{Operands, run_vcpu}
use virt_learn_program.Vmx.Entry.Machine.{Cpu, Memory}

-- `struct vmx_vcpu`, as far as this code uses it.
pub record VmxVcpu : Type 0 where
  pub regs : Regs
  pub fail : ℕ
  pub launched : Bool

-- The exit codes that the code tells apart.
pub record ExitCodes : Type 0 where
  pub vmmcall : ℕ
  pub cpuid : ℕ
  pub msr : ℕ
  pub excp_base : ℕ

-- What `svm_launch` prints.
pub data Report : Type 0 where
  for_vmmcall for_cpuid for_msr for_excp : Report
  with_dump : ℕ → Report

unfoldable pub classify : ExitCodes → ℕ → Report
classify k reason =
    if reason == k.vmmcall
    then for_vmmcall
    else if reason == k.cpuid
    then for_cpuid
    else if reason == k.msr
    then for_msr
    else if leb k.excp_base reason && leb reason (k.excp_base + 19)
    then for_excp
    else with_dump reason

-- A structure at the address `at`, on a machine whose stack holds the caller's words.
pub record Ran : Type 0 where
  pub vcpu : VmxVcpu
  pub cpu : Cpu

-- The call of `__vmx_run_vcpu`: the compiler puts the arguments in the operands' registers.
abbrev pub as_called : Memory → Operands → ℕ → VmxVcpu → Cpu → Cpu
as_called m o at vcpu cpu =
    let held = update cpu.registers o.vmx at in
    let held = update held o.regs m.regs_at in
    let held = update held o.launched (if vcpu.launched then 1 else 0) in
    record cpu { registers = update held rdx m.host_rsp_field; regs = vcpu.regs }

-- `vmx_run`. It has no result, and the value that its caller takes is an argument of `svm_launch`.
unfoldable pub vmx_run : Memory → Operands → ℕ → VmxVcpu → Cpu → Outcome Ran
vmx_run m o at vcpu cpu = do
  c ← run_vcpu m o (as_called m o at vcpu cpu)
  ok (record { vcpu = record vcpu { regs = c.cpu.regs; fail = c.fail % 256 }; cpu = c.cpu })

-- `svm_load_vcpu` and `svm_put_vcpu`, which the repository calls and does not have.
pub record Outside : Type 0 where
  pub load : Ran → Ran
  pub put : Ran → Ran

pub record Launched : Type 0 where
  pub ran : Ran
  pub report : Report
  pub result : ℤ

-- `svm_launch`: its loop is left after one round.
unfoldable pub svm_launch : Outside → ExitCodes → Memory → Operands → ℕ → ℕ → Ran → Outcome Launched
unfolding vmx_run
svm_launch out k m o reason at s = do
  let begun = out.load s
  r ← vmx_run m o at begun.vcpu begun.cpu
  ok (record { ran = out.put r; report = classify k reason; result = pos 0 })
