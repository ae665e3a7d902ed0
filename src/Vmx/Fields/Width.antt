-- ===== src/Vmx/Fields/Width.antt =====
-- What comes back of a value that was written.
use virt_learn_program.Base.{ℕ, ◌%◌, ◌<◌, ◌≡◌, ◌↔◌, arith}
use virt_learn_program.Vmx.Fields.{
  Instructions, vmcs_read16, vmcs_read32, vmcs_read64, vmcs_readl, vmcs_write16, vmcs_write32,
  vmcs_write64, vmcs_writel,
}

module _ (hw : Instructions) where
  open hw use {Vmcs, vmread-vmwrite}

  -- A value of 16 bits comes back at every width.
  pub write-read_small :
      (f v : ℕ) (s : Vmcs)
      → v < 65536
      → (vmcs_read16 hw f (vmcs_write16 hw f v s) ≡ v)
        × (vmcs_read32 hw f (vmcs_write32 hw f v s) ≡ v)
        × (vmcs_read64 hw f (vmcs_write64 hw f v s) ≡ v)
        × (vmcs_readl hw f (vmcs_writel hw f v s) ≡ v)
  unfolding vmcs_read16 vmcs_write16 vmcs_read32 vmcs_write32 vmcs_read64 vmcs_write64 vmcs_readl
      vmcs_writel
  write-read_small f v s h =
      let e = vmread-vmwrite f (v % 65536) s (omega arith) in omega (arith, e)

  -- A 64-bit value comes back from the 64-bit accessors exactly when it has no more than 16 bits, and
  -- so does a 32-bit value from the 32-bit ones.
  pub write-read_iff :
      (f v : ℕ) (s : Vmcs)
      → ((vmcs_read64 hw f (vmcs_write64 hw f v s) ≡ v) ↔ (v < 65536))
        × ((vmcs_read32 hw f (vmcs_write32 hw f v s) ≡ v) ↔ (v < 65536))
  unfolding vmcs_read32 vmcs_write32 vmcs_read64 vmcs_write64
  write-read_iff f v s = let e = vmread-vmwrite f (v % 65536) s (omega arith) in ground (arith, e)
