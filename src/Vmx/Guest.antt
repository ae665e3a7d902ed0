-- ===== src/Vmx/Guest.antt =====
-- vmx_mod/vmx.c: the state that a guest starts with, from its configuration and from the host.
pub mod Start
use virt_learn_program.Base.{ℕ, ◌==◌, if◌then◌else◌}
use virt_learn_program.Vmx.Segment.{Segment, SelectorLayout, svm_segment_access_rights}
use virt_learn_program.Vmx.Config.{UserRegs, SysRegs, SvmConfig}

-- `enum x86_reg` for 64 bits, and its numbers.
pub data X86Reg : Type 0 where
  rax rcx rdx rbx rsp rbp rsi rdi r8 r9 r10 r11 r12 r13 r14 r15 rip : X86Reg

abbrev pub index : X86Reg → ℕ
index rax = 0
index rcx = 1
index rdx = 2
index rbx = 3
index rsp = 4
index rbp = 5
index rsi = 6
index rdi = 7
index r8 = 8
index r9 = 9
index r10 = 10
index r11 = 11
index r12 = 12
index r13 = 13
index r14 = 14
index r15 = 15
index rip = 16

-- `regs[NR_REGS]`, indexed by the enumeration.
abbrev pub Regs : Type 0
Regs = X86Reg → ℕ

unfoldable pub update : Regs → X86Reg → ℕ → Regs
update regs r v q = if index q == index r then v else regs q

pub record VmcbSeg : Type 0 where
  pub selector : ℕ
  pub attrib : ℕ
  pub limit : ℕ
  pub base : ℕ

-- The fields of the control block's save area that the code assigns.
pub record VmcbSave : Type 0 where
  pub rip : ℕ
  pub rsp : ℕ
  pub rflags : ℕ
  pub cr0 : ℕ
  pub cr3 : ℕ
  pub cr4 : ℕ
  pub efer : ℕ
  pub dr7 : ℕ
  pub dr6 : ℕ
  pub cpl : ℕ
  pub cs : VmcbSeg
  pub ds : VmcbSeg
  pub es : VmcbSeg
  pub gs : VmcbSeg
  pub fs : VmcbSeg
  pub ss : VmcbSeg
  pub gdtr : VmcbSeg
  pub idtr : VmcbSeg
  pub tr : VmcbSeg
  pub kernel_gs_base : ℕ
  pub star : ℕ
  pub lstar : ℕ
  pub cstar : ℕ
  pub sfmask : ℕ

pub record SvmVcpu : Type 0 where
  pub asid : ℕ
  pub regs : Regs
  pub save : VmcbSave

-- What the code reads of the host: its registers, its table pointers (`sgdt`, `sidt`) and the
-- address that `get_cpu_gdt_rw` gives.
pub record HostRegs : Type 0 where
  pub gs_base : ℕ
  pub fs_base : ℕ
  pub kernel_gs_base : ℕ
  pub star : ℕ
  pub lstar : ℕ
  pub cstar : ℕ
  pub sfmask : ℕ
  pub gs_sel : ℕ
  pub fs_sel : ℕ
  pub cpu_gdt : ℕ
  pub gdt_limit : ℕ
  pub idt_base : ℕ
  pub idt_limit : ℕ

unfoldable pub vmsave_load_state : HostRegs → SvmVcpu → SvmVcpu
vmsave_load_state h svm = record svm {
  save = record svm.save {
    kernel_gs_base = h.kernel_gs_base;
    star = h.star;
    lstar = h.lstar;
    cstar = h.cstar;
    sfmask = h.sfmask;
    gs = record svm.save.gs { selector = h.gs_sel; base = h.gs_base };
    fs = record svm.save.fs { selector = h.fs_sel; base = h.fs_base };
  };
}

unfoldable pub svm_dt_set : HostRegs → SvmVcpu → SvmVcpu
svm_dt_set h svm = record svm {
  save = record svm.save {
    gdtr = record svm.save.gdtr { base = h.cpu_gdt; limit = h.gdt_limit };
    idtr = record svm.save.idtr { base = h.idt_base; limit = h.idt_limit };
  };
}

-- The assignments to `regs`, in their order.
unfoldable pub load_regs : UserRegs → Regs → Regs
unfolding update
load_regs u regs =
    let a = update (update (update regs rax u.rax) rbx u.rbx) rcx u.rcx in
    let b = update (update (update (update a rdx u.rdx) rsi u.rsi) rdi u.rdi) rdi u.rdi in
    let c = update (update (update (update b rbp u.rbp) r8 u.r8) r9 u.r9) r10 u.r10 in
    let d = update (update (update (update c r11 u.r11) r12 u.r12) r13 u.r13) r14 u.r14 in
    update (update (update d r15 u.r15) rip u.rip) rsp u.rsp

-- The four assignments that a code or data segment gets.
abbrev pub load_segment : SelectorLayout → Segment → VmcbSeg
load_segment c v = record {
  base = v.base;
  limit = v.limit;
  selector = v.selector;
  attrib = svm_segment_access_rights c v;
}

-- The assignments to the save area, up to the calls at the end.
unfoldable pub load_save : SelectorLayout → SvmConfig → VmcbSave → VmcbSave
load_save c conf save =
    let u = conf.svm_user_regs in
    let y = conf.svm_sys_regs in
    record save {
      rip = u.rip;
      rsp = u.rsp;
      rflags = u.rflags;
      cr0 = y.cr0;
      cr3 = y.cr3;
      cr4 = y.cr4;
      efer = y.efer;
      dr7 = 0;
      dr6 = 0;
      cpl = 0;
      cs = load_segment c y.cs;
      ds = load_segment c y.ds;
      es = load_segment c y.es;
      gs = load_segment c y.gs;
      fs = load_segment c y.fs;
      ss = load_segment c y.ss;
      gdtr = record save.gdtr { base = y.gdt.base; limit = y.gdt.limit };
      idtr = record save.idtr { base = y.idt.base; limit = y.idt.limit };
      tr = record save.tr {
        base = y.tr.base;
        attrib = svm_segment_access_rights c y.tr;
        limit = y.tr.limit;
      };
    }

unfoldable pub setup_guest_regs : SelectorLayout → HostRegs → SvmVcpu → SvmConfig → SvmVcpu
unfolding load_regs load_save vmsave_load_state svm_dt_set
setup_guest_regs c h svm conf = svm_dt_set h (
    vmsave_load_state h (record svm {
      asid = 1;
      regs = load_regs conf.svm_user_regs svm.regs;
      save = load_save c conf svm.save;
    }))
