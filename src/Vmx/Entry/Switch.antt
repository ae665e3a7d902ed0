-- ===== src/Vmx/Entry/Switch.antt =====
-- What one entry does to the guest's registers and to the host's.
use mathlib.Core.Path.{fun_ext}
use virt_learn_program.Base.{ℕ, ◌==◌, ok, true, not, arith, ◌≢◌, ◌≡◌, refl, none, set}
use virt_learn_program.Vmx.Guest.{X86Reg, rax, update, index}
use virt_learn_program.Vmx.Entry.{Operands, Ended, run_vcpu}
use virt_learn_program.Vmx.Entry.Machine.{low_byte, Cpu, Memory}
use virt_learn_program.Vmx.Entry.Steps.{
  except_pointers, tested, loaded, started, enter_refuses, run_vcpu_lem, IsCalled, IsPlaced, guest,
}

module _ (m : Memory) (o : Operands) (s : Cpu) (called : IsCalled m o s) (j w : ℕ)
    (placed : IsPlaced o j w s) where
  not_rax : index o.launched ≢ 0 → tested m o s ≡ s.registers o.launched
  unfolding update
  not_rax apart = ground (arith, apart)

  back_again : except_pointers (guest s) s.regs ≡ s.regs
  back_again = fun_ext every
    where
      every : (r : X86Reg) → except_pointers (guest s) s.regs r ≡ s.regs r
      every rax = unfold except_pointers in refl
      every _ = unfold except_pointers in refl

  refuses :
      m.enter (not (tested m o s == 0)) (guest s) ≡ none
      → (t : Ended) × (run_vcpu m o s ≡ ok t)
        × (t.cpu.regs ≡ s.regs)
        × (t.fail ≡ 0)
        × (t.cpu.host_rsp ≡ t.cpu.vmcs_host_rsp)
        × (t.cpu.stack ≡ set (set s.stack o.fail 0) j (low_byte true w))
  refuses e = (
    _,
    run_vcpu_lem m o s called j w placed (guest s) true (
        enter_refuses m o (started m o s called j w placed) (not (tested m o s == 0))
          (loaded m o (started m o s called j w placed)) e),
    back_again,
    refl,
    refl,
    refl,
  )

  -- Under the same conditions, if the processor refuses the entry, the array is as it was, and the
  -- result is 0 all the same: the flag is set in the word below `fail`.
  pub run_vcpu_refused :
      index o.launched ≢ 0
      → m.enter (not (s.registers o.launched == 0)) (guest s) ≡ none
      → (t : Ended) × (run_vcpu m o s ≡ ok t)
        × (t.cpu.regs ≡ s.regs)
        × (t.fail ≡ 0)
        × (t.cpu.host_rsp ≡ t.cpu.vmcs_host_rsp)
        × (t.cpu.stack ≡ set (set s.stack o.fail 0) j (low_byte true w))
  run_vcpu_refused apart e = refuses (rw (not_rax apart) e)

  -- If the compiler puts `launched` in `rax`, which the code loads with the array's address before it
  -- tests the flag, then the entry is a VMRESUME whatever the flag: where the processor refuses that,
  -- the array is as it was.
  pub run_vcpu_misplaced :
      index o.launched ≡ 0
      → m.regs_at ≢ 0
      → m.enter true (guest s) ≡ none
      → (t : Ended) × (run_vcpu m o s ≡ ok t) × (t.cpu.regs ≡ s.regs)
  run_vcpu_misplaced in_rax not_null e =
      let (t, ran, regs, fail, noted, stack) = refuses (rw resumes e) in (t, ran, regs)
    where
      resumes : not (tested m o s == 0) ≡ true
      resumes = unfold update in ground (arith, in_rax, not_null, called.array)
