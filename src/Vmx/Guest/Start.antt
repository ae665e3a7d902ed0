-- ===== src/Vmx/Guest/Start.antt =====
-- What the guest starts with.
use virt_learn_program.Base.{ℕ, ◌≡◌, refl, arith}
use virt_learn_program.Vmx.Segment.{SelectorLayout}
use virt_learn_program.Vmx.Segment.Rights.{amd, access_rights_sum}
use virt_learn_program.Vmx.Config.{UserRegs, SvmConfig, Platform, svm_config_init}
use virt_learn_program.Vmx.Guest.{
  X86Reg, rax, rcx, rdx, rbx, rsp, rbp, rsi, rdi, r8, r9, r10, r11, r12, r13, r14, r15, rip,
  HostRegs, SvmVcpu, setup_guest_regs,
}

-- The field of the configuration that goes by a register's name.
unfoldable pub user_reg : UserRegs → X86Reg → ℕ
user_reg u rax = u.rax
user_reg u rcx = u.rcx
user_reg u rdx = u.rdx
user_reg u rbx = u.rbx
user_reg u rsp = u.rsp
user_reg u rbp = u.rbp
user_reg u rsi = u.rsi
user_reg u rdi = u.rdi
user_reg u r8 = u.r8
user_reg u r9 = u.r9
user_reg u r10 = u.r10
user_reg u r11 = u.r11
user_reg u r12 = u.r12
user_reg u r13 = u.r13
user_reg u r14 = u.r14
user_reg u r15 = u.r15
user_reg u rip = u.rip

-- Every register of the guest, the instruction and stack pointers included, starts with the
-- configuration's value, whatever was there before.
pub setup_guest_regs-regs :
    (c : SelectorLayout) (h : HostRegs) (svm : SvmVcpu) (conf : SvmConfig) (r : X86Reg)
    → (setup_guest_regs c h svm conf).regs r ≡ user_reg conf.svm_user_regs r
unfolding setup_guest_regs user_reg
setup_guest_regs-regs c h svm conf rax = refl
setup_guest_regs-regs c h svm conf _ = refl

-- The guest runs on the host's descriptor tables and on the host's FS and GS selectors and bases,
-- and on nothing of the configuration there: two configurations give it the same.
pub setup_guest_regs-host :
    (c : SelectorLayout) (h : HostRegs) (svm : SvmVcpu) (conf : SvmConfig)
    → let save = (setup_guest_regs c h svm conf).save in
      (save.gdtr.base ≡ h.cpu_gdt)
      × (save.gdtr.limit ≡ h.gdt_limit)
      × (save.idtr.base ≡ h.idt_base)
      × (save.idtr.limit ≡ h.idt_limit)
      × (save.fs.base ≡ h.fs_base)
      × (save.fs.selector ≡ h.fs_sel)
      × (save.gs.base ≡ h.gs_base)
      × (save.gs.selector ≡ h.gs_sel)
unfolding setup_guest_regs
setup_guest_regs-host c h svm conf = (refl, refl, refl, refl, refl, refl, refl, refl)

-- The initial configuration asks for privilege level 0 in the code and stack segments and in the
-- control block; with AMD's layout both segments come out at level 1.
pub configured_privilege :
    (k : Platform) (h : HostRegs) (svm : SvmVcpu) (conf : SvmConfig)
    → conf.svm_sys_regs.cs.unusable ≡ 0
    → conf.svm_sys_regs.ss.unusable ≡ 0
    → let conf' = svm_config_init k conf in
      let save = (setup_guest_regs amd h svm conf').save in
      (conf'.svm_sys_regs.cs.dpl ≡ 0)
      × (conf'.svm_sys_regs.ss.dpl ≡ 0)
      × (save.cpl ≡ 0)
      × (save.cs.attrib ≡ 0xabb)
      × (save.ss.attrib ≡ 0xab3)
unfolding setup_guest_regs svm_config_init
configured_privilege k h svm conf cs_usable ss_usable = ground (
  arith,
  access_rights_sum (svm_config_init k conf).svm_sys_regs.cs,
  access_rights_sum (svm_config_init k conf).svm_sys_regs.ss,
)
