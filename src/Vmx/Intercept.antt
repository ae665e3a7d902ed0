-- ===== src/Vmx/Intercept.antt =====
-- vmx_mod/vmcs.h and vmx.c: the intercepts of the control block, and its initial control area.
pub mod Initial
use virt_learn_program.Base.{ℕ, zero, suc, ◌-◌, ◌^◌, ◌+◌, bit_and, bit_or, u64, List, [], ◌∷◌}

-- The names of the kernel's INTERCEPT_ enumeration that the code uses.
pub data Intercept : Type 0 where
  intr nmi smi selective_cr0 rdpmc invd hlt invlpg invlpga ioio_prot msr_prot task_switch :
      Intercept
  shutdown vmrun vmmcall vmsave stgi clgi skinit wbinvd monitor mwait xsetbv cpuid : Intercept

-- The fields of the control area that the code assigns, and the debug control of the save area.
pub record Control : Type 0 where
  pub asid : ℕ
  pub int_ctl : ℕ
  pub nested_ctl : ℕ
  pub nested_cr3 : ℕ
  pub iopm_base_pa : ℕ
  pub msrpm_base_pa : ℕ
  pub virt_ext : ℕ
  pub dbgctl : ℕ
  pub intercept : ℕ  -- u64

unfoldable pub set_intercept : Control → ℕ → Control
set_intercept c bit = record c { intercept = bit_or c.intercept (u64 (2 ^ bit)) }

-- `~` on 64 bits.
abbrev pub complement : ℕ → ℕ
complement x = 18446744073709551615 - x

unfoldable pub clr_intercept : Control → ℕ → Control
clr_intercept c bit = record c { intercept = bit_and c.intercept (complement (u64 (2 ^ bit))) }

-- The calls of `set_intercept` in `svm_init_vmcb`, in their order.
abbrev pub initial : List Intercept
initial =
    intr ∷ nmi ∷ smi ∷ selective_cr0 ∷ rdpmc ∷ invd ∷ hlt ∷ invlpg ∷ invlpga ∷ ioio_prot ∷ msr_prot
    ∷ task_switch ∷ shutdown ∷ vmrun ∷ vmmcall ∷ vmsave ∷ stgi ∷ clgi ∷ skinit ∷ wbinvd ∷ monitor
    ∷ mwait ∷ xsetbv ∷ []

-- `number` gives the enumeration's values.
unfoldable pub set_intercepts : (Intercept → ℕ) → List Intercept → Control → Control
set_intercepts number [] c = c
set_intercepts number (i ∷ is) c = set_intercepts number is (set_intercept c (number i))

-- What `svm_init_vmcb` finds in the machine: its identifier, the kernel's mask constant, and the
-- physical addresses of its two bitmaps.
pub record Machine : Type 0 where
  pub asid : ℕ
  pub v_intr_masking_mask : ℕ
  pub io_bitmap_pa : ℕ
  pub msrpm_pa : ℕ

unfoldable pub svm_init_vmcb : (Intercept → ℕ) → Machine → Control → Control
unfolding set_intercepts
svm_init_vmcb number m c = set_intercepts number initial (record c {
  asid = m.asid;
  int_ctl = m.v_intr_masking_mask;
  nested_ctl = 0;
  nested_cr3 = 0;
  iopm_base_pa = m.io_bitmap_pa;
  msrpm_base_pa = m.msrpm_pa;
  virt_ext = 0;
  dbgctl = 0;
})
