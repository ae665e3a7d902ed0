-- ===== src/Vmx/Entry.antt =====
-- vmx_mod/vmx.c: the assembly that enters a guest (`__vmx_run_vcpu`), as a list of instructions and
-- a machine that executes them.
pub mod Machine
pub mod Steps
pub mod Switch
mod Examples
use virt_learn_program.Base.{
  ◌>>=◌, ℕ, set, get_elem?, expect, out_of_bounds, zero, suc, ◌+◌, ◌*◌, ◌-◌, Bool, true, false,
  ◌==◌, if◌then◌else◌, Option, none, some, List, [], ◌∷◌, ◌++◌, Outcome, ok,
}
use virt_learn_program.Vmx.Guest.{
  X86Reg, rax, rcx, rdx, rbx, rbp, rsi, rdi, r8, r9, r10, r11, r12, r13, r14, r15, Regs,
}
use virt_learn_program.Vmx.Entry.Machine.{
  Instr, push, pop, cmp_host_rsp, je, save_host_rsp, vmwrite_rsp, peek, cmp_zero, load, jne, jmp,
  vmlaunch, vmresume, park, pop_into, store, setbe, Cpu, Memory, exec,
}

-- Which registers the compiler puts the operands `vmx`, `regs` and `launched` in, and how many words
-- above the stack pointer the variable `fail` is. It is taken to be reached through the stack pointer:
-- through `rbp`, which has the guest's value by then, it could not be.
pub record Operands : Type 0 where
  pub vmx : X86Reg
  pub regs : X86Reg
  pub launched : X86Reg
  pub fail : ℕ

-- The registers that the code moves between the machine and `regs`, but for `rax`.
abbrev pub moved : List X86Reg
moved = rcx ∷ rdx ∷ rbx ∷ rsi ∷ rdi ∷ rbp ∷ r8 ∷ r9 ∷ r10 ∷ r11 ∷ r12 ∷ r13 ∷ r14 ∷ r15 ∷ []

abbrev pub loads : List X86Reg → List Instr
loads [] = []
loads (r ∷ rs) = load r ∷ loads rs

abbrev pub stores : List X86Reg → List Instr
stores [] = []
stores (r ∷ rs) = store r ∷ stores rs

-- Up to the label `1`: the pointers are pushed, and the host's stack pointer is noted if it changed.
unfoldable pub prologue : Operands → List Instr
prologue o =
    push o.vmx ∷ push o.regs ∷ push o.regs ∷ cmp_host_rsp ∷ je 2 ∷ save_host_rsp ∷ vmwrite_rsp ∷ []

-- The guest's registers are loaded.
unfoldable pub load_guest : Operands → List Instr
load_guest o = peek rax ∷ cmp_zero o.launched ∷ loads moved ++ load rax ∷ []

-- The entry, up to the label `.Lkvm_vmx_return`.
unfoldable pub enter_guest : List Instr
enter_guest = jne 2 ∷ vmlaunch ∷ jmp 1 ∷ vmresume ∷ []

-- The guest's registers are stored.
unfoldable pub store_guest : Operands → List Instr
store_guest o = park rax ∷ pop rax ∷ pop_into rax ∷ stores moved ++ setbe o.fail ∷ pop o.vmx ∷ []

unfoldable pub code : Operands → List Instr
code o = prologue o ++ (load_guest o ++ (enter_guest ++ store_guest o))

-- The machine at the end, and the result.
pub record Ended : Type 0 where
  pub cpu : Cpu
  pub fail : ℕ

-- `__vmx_run_vcpu` on a machine; `fail` starts as 0.
unfoldable pub run_vcpu : Memory → Operands → Cpu → Outcome Ended
run_vcpu m o s = do
  r ← exec m zero (code o) (record s { stack = set s.stack o.fail 0 })
  fail ← expect out_of_bounds (get_elem? r.0.stack o.fail)
  ok (record { cpu = r.0; fail = fail })
