-- ===== src/Vmx/Examples.antt =====
-- The hypervisor module on concrete inputs.
use virt_learn_program.Base.{
  zero, ℕ, suc, ◌+◌, ◌/◌, ◌%◌, ◌≤◌, ◌<◌, ◌≡◌, ◌↔◌, ◌&&◌, not, refl, arith, true, false, some, List,
  [], ◌∷◌, length, length-replicate, replicate, ◌==◌, if◌then◌else◌, test_bit, ok, fault,
  out_of_bounds, pos,
}
use virt_learn_program.Vmx.Msrpm.{svm_msrpm_offset, set_msr_interception}
use virt_learn_program.Vmx.Msrpm.Layout.{IsCovered, word_of, bit_address, IsCovered-offset}
use virt_learn_program.Vmx.Msrpm.Intercepts.{
  map_bit, intercepted, set_msr_interception-map_bit, set_msr_interception_outside,
}
use virt_learn_program.Vmx.Msrpm.Ops.{kernel_ops}
use virt_learn_program.Vmx.Segment.{Segment, svm_segment_access_rights}
use virt_learn_program.Vmx.Segment.Rights.{amd, access_rights_fields}
use virt_learn_program.Vmx.Config.{Descriptor, SvmConfig, Platform, svm_config_init}
use virt_learn_program.Vmx.Guest.{X86Reg, VmcbSeg, SvmVcpu, HostRegs, setup_guest_regs}
use virt_learn_program.Vmx.Guest.Start.{
  user_reg, setup_guest_regs-regs, setup_guest_regs-host, configured_privilege,
}
use virt_learn_program.Vmx.Intercept.{
  Intercept, Control, Machine, initial, svm_init_vmcb, clr_intercept,
}
use virt_learn_program.Vmx.Intercept.Initial.{
  is_listed, svm_init_vmcb-intercept, clr_intercept-test_bit,
}
use virt_learn_program.Vmx.Fields.{
  Instructions, vmcs_read32, vmcs_write32, vmcs_read64, vmcs_write64,
}
use virt_learn_program.Vmx.Fields.Width.{write-read_iff}
use virt_learn_program.Vmx.Cpus.{vmx_init}
use virt_learn_program.Vmx.Cpus.Enabled.{is_online, vmx_init-mask}

-- MSR_LSTAR, number 0x82 of the second range.
lstar-IsCovered : IsCovered 1 0x82 0xc0000082
lstar-IsCovered = record { base = 0xc0000000; range = refl; within = omega arith; position = refl }

word_of_lstar : svm_msrpm_offset 0xffffffff 0xc0000082 ≡ word_of 1 0x82
word_of_lstar = IsCovered-offset 0xffffffff 1 0x82 0xc0000082 lstar-IsCovered

offset_lstar : svm_msrpm_offset 0xffffffff 0xc0000082 ≡ 520
unfolding svm_msrpm_offset
offset_lstar = refl

map_size : 1536 ≤ length {A = ℕ} (replicate 2048 0xffffffff)
map_size = let e = length-replicate {A = ℕ} 2048 0xffffffff in omega (arith, e)

set_msr_interception-map_bit_example :
    (msrpm' : List ℕ) × (set_msr_interception kernel_ops 0xffffffff
        (replicate 2048 0xffffffff)
        0xc0000082
        true
        false
      ≡ ok msrpm')
    × (length msrpm' ≡ length {A = ℕ} (replicate 2048 0xffffffff))
    × ((a : ℕ)
        → map_bit msrpm' a ≡ (
            if a == bit_address 1 0x82
            then some (intercepted true)
            else if a == bit_address 1 0x82 + 1
            then some (intercepted false)
            else map_bit (replicate 2048 0xffffffff) a))
set_msr_interception-map_bit_example =
    set_msr_interception-map_bit kernel_ops 0xffffffff (replicate 2048 0xffffffff) 1 0x82 0xc0000082
      true false lstar-IsCovered (omega arith) map_size

far-IsCovered : (i k : ℕ) → ¬ IsCovered i k 0x4000
far-IsCovered zero k c = ground (arith, c)
far-IsCovered (suc zero) k c = ground (arith, c)
far-IsCovered (suc (suc zero)) k c = ground (arith, c)
far-IsCovered (suc (suc (suc i))) k c = ground (arith, c)

set_msr_interception_outside_run :
    set_msr_interception kernel_ops 0xffffffff (7 ∷ []) 0x4000 true true ≡ fault out_of_bounds
set_msr_interception_outside_run =
    set_msr_interception_outside kernel_ops 0xffffffff (7 ∷ []) 0x4000 true true far-IsCovered
      (omega arith)

-- A code segment of privilege level 0.
abbrev code_segment : Segment
code_segment = record {
  base = 0;
  limit = 0xffffffff;
  selector = 0x10;
  type = 0xb;
  present = 1;
  dpl = 0;
  db = 0;
  s = 1;
  l = 1;
  g = 1;
  avl = 0;
  unusable = 0;
}

access_rights_fields_run :
    let ar = svm_segment_access_rights amd code_segment in
    (ar % 16 ≡ 0xb % 16)
    × (ar / 16 % 2 ≡ 1 % 2)
    × (ar / 32 % 4 ≡ 1 % 4)
    × (ar / 128 % 2 ≡ 1 % 2)
    × (ar / 256 % 2 ≡ 0 % 2)
    × (ar / 512 % 2 ≡ 1 % 2)
    × (ar / 1024 % 2 ≡ 0 % 2)
    × (ar / 2048 ≡ 1 % 2)
access_rights_fields_run = access_rights_fields code_segment (refl, omega arith)

abbrev descriptor : Descriptor
descriptor = record { base = 0x5000; limit = 0x7f }

abbrev config : SvmConfig
config = record {
  svm_user_regs = record {
    rax = 1;
    rbx = 2;
    rcx = 3;
    rdx = 4;
    rsi = 5;
    rdi = 6;
    rsp = 7;
    rbp = 8;
    r8 = 9;
    r9 = 10;
    r10 = 11;
    r11 = 12;
    r12 = 13;
    r13 = 14;
    r14 = 15;
    r15 = 16;
    rip = 17;
    rflags = 18;
  };
  svm_sys_regs = record {
    cs = code_segment;
    ds = code_segment;
    es = code_segment;
    fs = code_segment;
    gs = code_segment;
    ss = code_segment;
    tr = code_segment;
    ldt = code_segment;
    gdt = descriptor;
    idt = descriptor;
    cr0 = 0;
    cr3 = 0;
    cr4 = 0;
    efer = 0;
  };
}

abbrev empty_seg : VmcbSeg
empty_seg = record { selector = 0; attrib = 0; limit = 0; base = 0 }

abbrev vcpu : SvmVcpu
vcpu = record {
  asid = 0;
  regs = λ r. 0;
  save = record {
    rip = 0;
    rsp = 0;
    rflags = 0;
    cr0 = 0;
    cr3 = 0;
    cr4 = 0;
    efer = 0;
    dr7 = 0;
    dr6 = 0;
    cpl = 3;
    cs = empty_seg;
    ds = empty_seg;
    es = empty_seg;
    gs = empty_seg;
    fs = empty_seg;
    ss = empty_seg;
    gdtr = empty_seg;
    idtr = empty_seg;
    tr = empty_seg;
    kernel_gs_base = 0;
    star = 0;
    lstar = 0;
    cstar = 0;
    sfmask = 0;
  };
}

abbrev host : HostRegs
host = record {
  gs_base = 0x100;
  fs_base = 0x200;
  kernel_gs_base = 0x300;
  star = 4;
  lstar = 5;
  cstar = 6;
  sfmask = 7;
  gs_sel = 8;
  fs_sel = 9;
  cpu_gdt = 0x1000;
  gdt_limit = 0x7f;
  idt_base = 0x2000;
  idt_limit = 0xfff;
}

starts_with_rdi :
    (setup_guest_regs amd host vcpu config).regs X86Reg.rdi
    ≡ user_reg config.svm_user_regs X86Reg.rdi
starts_with_rdi = setup_guest_regs-regs amd host vcpu config X86Reg.rdi

host_tables :
    let save = (setup_guest_regs amd host vcpu config).save in
    (save.gdtr.base ≡ 0x1000)
    × (save.gdtr.limit ≡ 0x7f)
    × (save.idtr.base ≡ 0x2000)
    × (save.idtr.limit ≡ 0xfff)
    × (save.fs.base ≡ 0x200)
    × (save.fs.selector ≡ 9)
    × (save.gs.base ≡ 0x100)
    × (save.gs.selector ≡ 8)
host_tables = setup_guest_regs-host amd host vcpu config

abbrev platform : Platform
platform = record {
  cr0_pe = 1;
  cr0_pg = 0x80000000;
  cr0_et = 0x10;
  cr0_ne = 0x20;
  cr4_pae = 0x20;
  cr4_pge = 0x80;
  cr4_osfxsr = 0x200;
  cr4_osxmmexcpt = 0x400;
  cr4_fsgsbase = 0x10000;
  cr4_osxsave = 0x40000;
  efer_nx = 0x800;
  efer_svme = 0x1000;
  efer_lme = 0x100;
  efer_lma = 0x400;
  efer_sce = 1;
  efer_ffxsr = 0x4000;
  kernel_cs = 0x10;
  kernel_ds = 0x18;
  host_cr3 = 0x3000;
}

configured_privilege_run :
    let conf' = svm_config_init platform config in
    let save = (setup_guest_regs amd host vcpu conf').save in
    (conf'.svm_sys_regs.cs.dpl ≡ 0)
    × (conf'.svm_sys_regs.ss.dpl ≡ 0)
    × (save.cpl ≡ 0)
    × (save.cs.attrib ≡ 0xabb)
    × (save.ss.attrib ≡ 0xab3)
configured_privilege_run = configured_privilege platform host vcpu config refl refl

-- A numbering of the intercepts in which VMRUN has bit 32 and all others bit 0.
abbrev number : Intercept → ℕ
number Intercept.vmrun = 32
number _ = 0

abbrev machine : Machine
machine = record {
  asid = 1;
  v_intr_masking_mask = 0x1000000;
  io_bitmap_pa = 0x1000;
  msrpm_pa = 0x2000;
}

abbrev control : Control
control = record {
  asid = 0;
  int_ctl = 0;
  nested_ctl = 0;
  nested_cr3 = 0;
  iopm_base_pa = 0;
  msrpm_base_pa = 0;
  virt_ext = 0;
  dbgctl = 0;
  intercept = 4;
}

svm_init_vmcb-intercept_run :
    test_bit 32 (svm_init_vmcb number machine control).intercept
    ≡ (if is_listed number 32 initial then 1 else test_bit 32 4)
svm_init_vmcb-intercept_run = svm_init_vmcb-intercept number machine control 32 (omega arith)

cleared_bit_2 :
    test_bit 2 (clr_intercept control 2).intercept ≡ (if 2 == 2 then 0 else test_bit 2 4)
cleared_bit_2 = clr_intercept-test_bit control 2 2 (omega arith)

keeps_lem : (f v : ℕ) (s : ℕ → ℕ) → v < 65536 → (if f == f then v else s f) ≡ v
keeps_lem f v s h = ground arith

-- A control structure that keeps what is written.
abbrev keeps : Instructions
keeps = record {
  Vmcs = ℕ → ℕ;
  vmread = λ f s. s f;
  vmwrite = λ f v s g. if g == f then v else s g;
  vmread-vmwrite = keeps_lem;
}

write-read_iff_run :
    ((vmcs_read64 keeps 0x6c16 (vmcs_write64 keeps 0x6c16 0xffffffff81000000 (λ f. 0))
        ≡ 0xffffffff81000000)
      ↔ (0xffffffff81000000 < 65536))
    × ((vmcs_read32 keeps 0x6c16 (vmcs_write32 keeps 0x6c16 0xffffffff81000000 (λ f. 0))
          ≡ 0xffffffff81000000)
        ↔ (0xffffffff81000000 < 65536))
write-read_iff_run = write-read_iff keeps 0x6c16 0xffffffff81000000 (λ f. 0)

one_enabled_before :
    ((c : ℕ)
      → (vmx_init (λ cpu. cpu == 1) (0 ∷ 1 ∷ 2 ∷ [])).0 c
        ≡ (is_online c (0 ∷ 1 ∷ 2 ∷ []) && not (c == 1)))
    × ((vmx_init (λ cpu. cpu == 1) (0 ∷ 1 ∷ 2 ∷ [])).1 ≡ pos 0)
one_enabled_before = vmx_init-mask (λ cpu. cpu == 1) (0 ∷ 1 ∷ 2 ∷ [])
