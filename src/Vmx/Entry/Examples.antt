-- ===== src/Vmx/Entry/Examples.antt =====
-- The assembly of `__vmx_run_vcpu` on concrete machines.
use virt_learn_program.Base.{◌≡◌, refl, arith, true, false, Bool, Option, none, some, ok, [], ◌∷◌}
use virt_learn_program.Vmx.Guest.{rax, rdx, rbx, rsi, rdi, Regs}
use virt_learn_program.Vmx.Entry.{Operands, Ended, run_vcpu}
use virt_learn_program.Vmx.Entry.Machine.{Cpu, Memory}
use virt_learn_program.Vmx.Entry.Steps.{IsCalled, IsPlaced}
use virt_learn_program.Vmx.Entry.Switch.{run_vcpu_misplaced}

-- A processor that refuses a `vmresume`, and a guest that leaves 99 in every register.
abbrev refuses_resume : Bool → Regs → Option Regs
refuses_resume true r = none
refuses_resume false r = some λ x. 99

abbrev memory : Memory
memory = record {
  regs_at = 0x8000;
  stack_base = 0xf000;
  host_rsp_field = 0x6c14;
  host_rip = 0x7000;
  return_label = 0x7000;
  enter = refuses_resume;
}

abbrev placed : Operands
placed = record { vmx = rbx; regs = rsi; launched = rdi; fail = 1 }

abbrev in_host : Regs
in_host rbx = 0x9000
in_host rsi = 0x8000
in_host rdx = 0x6c14
in_host _ = 0

abbrev cpu : Cpu
cpu = record {
  registers = in_host;
  stack = 0x1234 ∷ 5 ∷ 6 ∷ [];
  regs = λ r. 7;
  host_rsp = 0;
  vmcs_host_rsp = 0;
  equal = false;
  refused = false;
}

abbrev misplaced : Operands
misplaced = record { vmx = rbx; regs = rsi; launched = rax; fail = 1 }

misplaced-IsCalled : IsCalled memory misplaced cpu
misplaced-IsCalled = record { array = refl; field = refl; noted = refl; label = refl }

misplaced_in_frame : IsPlaced misplaced 0 0x1234 cpu
misplaced_in_frame = record { slot = refl; word = refl; inside = omega arith }

misplaced_run : (t : Ended) × (run_vcpu memory misplaced cpu ≡ ok t) × (t.cpu.regs ≡ λ r. 7)
misplaced_run =
    run_vcpu_misplaced memory misplaced cpu misplaced-IsCalled 0 0x1234 misplaced_in_frame refl
      (λ h. ground (arith, h)) refl
