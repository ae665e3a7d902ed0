-- ===== src/Vmx/Launch/Again.antt =====
-- What a second launch of the same guest does.
use virt_learn_program.Base.{◌≢◌}
use virt_learn_program.Vmx.Guest.{index}
use virt_learn_program.Vmx.Entry.{Operands}

-- The three operands are in different registers, and neither in `rdx`, which holds a constant, nor,
-- as for the flag, in `rax`, which the code overwrites.
pub record ArePlaced (o : Operands) : Type 0 where
  pub regs_vmx : index o.regs ≢ index o.vmx
  pub regs_launched : index o.regs ≢ index o.launched
  pub regs_rdx : index o.regs ≢ 2
  pub launched_rdx : index o.launched ≢ 2
  pub launched_rax : index o.launched ≢ 0
