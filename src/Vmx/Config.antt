-- ===== src/Vmx/Config.antt =====
-- vmx_mod/vmcs.h and vmx.c: the configuration of a guest and what `svm_config_init` puts into it.
use virt_learn_program.Base.{ℕ, bit_or}
use virt_learn_program.Vmx.Segment.{Segment}

-- `struct descriptor`, less its padding.
pub record Descriptor : Type 0 where
  pub base : ℕ  -- u64
  pub limit : ℕ  -- u16

-- `struct user_regs`.
pub record UserRegs : Type 0 where
  pub rax : ℕ
  pub rbx : ℕ
  pub rcx : ℕ
  pub rdx : ℕ
  pub rsi : ℕ
  pub rdi : ℕ
  pub rsp : ℕ
  pub rbp : ℕ
  pub r8 : ℕ
  pub r9 : ℕ
  pub r10 : ℕ
  pub r11 : ℕ
  pub r12 : ℕ
  pub r13 : ℕ
  pub r14 : ℕ
  pub r15 : ℕ
  pub rip : ℕ
  pub rflags : ℕ

-- `struct sys_regs`, less the fields that nothing here reads or writes.
pub record SysRegs : Type 0 where
  pub cs : Segment
  pub ds : Segment
  pub es : Segment
  pub fs : Segment
  pub gs : Segment
  pub ss : Segment
  pub tr : Segment
  pub ldt : Segment
  pub gdt : Descriptor
  pub idt : Descriptor
  pub cr0 : ℕ
  pub cr3 : ℕ
  pub cr4 : ℕ
  pub efer : ℕ

-- `struct svm_config`.
pub record SvmConfig : Type 0 where
  pub svm_user_regs : UserRegs
  pub svm_sys_regs : SysRegs

-- The kernel's constants that the functions below name, and the host's page-table register.
pub record Platform : Type 0 where
  pub cr0_pe : ℕ
  pub cr0_pg : ℕ
  pub cr0_et : ℕ
  pub cr0_ne : ℕ
  pub cr4_pae : ℕ
  pub cr4_pge : ℕ
  pub cr4_osfxsr : ℕ
  pub cr4_osxmmexcpt : ℕ
  pub cr4_fsgsbase : ℕ
  pub cr4_osxsave : ℕ
  pub efer_nx : ℕ
  pub efer_svme : ℕ
  pub efer_lme : ℕ
  pub efer_lma : ℕ
  pub efer_sce : ℕ
  pub efer_ffxsr : ℕ
  pub kernel_cs : ℕ
  pub kernel_ds : ℕ
  pub host_cr3 : ℕ

module _ (k : Platform) where
  abbrev cr0 : ℕ
  cr0 = bit_or (bit_or (bit_or k.cr0_pe k.cr0_pg) k.cr0_et) k.cr0_ne

  abbrev cr4 : ℕ
  cr4 =
      bit_or
        (bit_or (bit_or (bit_or (bit_or k.cr4_pae k.cr4_pge) k.cr4_osfxsr) k.cr4_osxmmexcpt)
          k.cr4_fsgsbase)
        k.cr4_osxsave

  abbrev efer : ℕ
  efer =
      bit_or
        (bit_or (bit_or (bit_or (bit_or k.efer_nx k.efer_svme) k.efer_lme) k.efer_lma) k.efer_sce)
        k.efer_ffxsr

-- The eight attribute assignments that each segment gets.
abbrev with_attributes : Segment → ℕ → ℕ → ℕ → ℕ → Segment
with_attributes v type s l g = record v {
  type = type;
  s = s;
  dpl = 0;
  present = 1;
  avl = 0;
  l = l;
  db = 0;
  g = g;
}

-- The base of `gs` and the `unusable` fields keep what the caller left in them.
unfoldable pub svm_config_init : Platform → SvmConfig → SvmConfig
svm_config_init k conf = record conf {
  svm_sys_regs = record conf.svm_sys_regs {
    cr3 = k.host_cr3;
    cr0 = cr0 k;
    cr4 = cr4 k;
    efer = efer k;
    cs =
        with_attributes
          (record conf.svm_sys_regs.cs { base = 0; limit = 0xffffffff; selector = k.kernel_cs }) 0xb
          1 1 1;
    ds =
        with_attributes
          (record conf.svm_sys_regs.ds { base = 0; limit = 0xffffffff; selector = k.kernel_ds }) 3 1
          1 1;
    es =
        with_attributes
          (record conf.svm_sys_regs.es { base = 0; limit = 0xffffffff; selector = k.kernel_ds }) 3 1
          1 1;
    fs =
        with_attributes (record conf.svm_sys_regs.fs { base = 0; limit = 0xffffffff; selector = 0 })
          3 1 1 1;
    gs = with_attributes (record conf.svm_sys_regs.gs { limit = 0xffffffff; selector = 0 }) 3 1 1 1;
    ss =
        with_attributes
          (record conf.svm_sys_regs.ss { base = 0; limit = 0xffffffff; selector = k.kernel_ds }) 3 1
          1 1;
    tr =
        with_attributes (record conf.svm_sys_regs.tr { base = 0; limit = 0xff; selector = 0 }) 0xb 0
          0 0;
    ldt =
        with_attributes (record conf.svm_sys_regs.ldt { base = 0; limit = 0; selector = 0 }) 2 0 0
          0;
  };
}
