-- ===== src/Vmx/Fields.antt =====
-- vmx_mod/ops.h: reading and writing the fields of the current control structure, and the
-- invalidation of translations. The instructions are an interface.
pub mod Width
use virt_learn_program.Base.{
  ℕ, ◌==◌, if◌then◌else◌, ◌%◌, ◌<◌, ◌≡◌, u16, u32, u64, List, [], ◌∷◌, Option, none, some,
}

-- `vmread` and `vmwrite` on a control structure; every field takes a value of 16 bits.
pub record Instructions : Type 1 where
  pub Vmcs : Type 0
  pub vmread : ℕ → Vmcs → ℕ
  pub vmwrite : ℕ → ℕ → Vmcs → Vmcs
  pub vmread-vmwrite : (f v : ℕ) (s : Vmcs) → v < 65536 → vmread f (vmwrite f v s) ≡ v

module _ (hw : Instructions) where
  open hw use {Vmcs, vmread, vmwrite}

  unfoldable pub vmcs_read16 : ℕ → Vmcs → ℕ
  vmcs_read16 field s = u16 (vmread field s)

  unfoldable pub vmcs_read32 : ℕ → Vmcs → ℕ
  vmcs_read32 field s = u32 (vmread field s)

  unfoldable pub vmcs_read64 : ℕ → Vmcs → ℕ
  vmcs_read64 field s = u64 (vmread field s)

  unfoldable pub vmcs_readl : ℕ → Vmcs → ℕ
  vmcs_readl field s = u64 (vmread field s)

  -- All four take their value as a `u16`.
  unfoldable pub vmcs_write16 : ℕ → ℕ → Vmcs → Vmcs
  vmcs_write16 field value s = vmwrite field (u16 value) s

  unfoldable pub vmcs_write32 : ℕ → ℕ → Vmcs → Vmcs
  vmcs_write32 field value s = vmwrite field (u16 value) s

  unfoldable pub vmcs_write64 : ℕ → ℕ → Vmcs → Vmcs
  vmcs_write64 field value s = vmwrite field (u16 value) s

  unfoldable pub vmcs_writel : ℕ → ℕ → Vmcs → Vmcs
  vmcs_writel field value s = vmwrite field (u16 value) s
