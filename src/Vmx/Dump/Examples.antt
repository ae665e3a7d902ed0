-- ===== src/Vmx/Dump/Examples.antt =====
-- The dump on a concrete processor.
use virt_learn_program.Base.{ℕ, ◌≤◌, ◌<◌, ◌≡◌, ◌==◌, if◌then◌else◌, true, false, arith}
use virt_learn_program.Vmx.Dump.{Constants, controls}
use virt_learn_program.Vmx.Dump.Names
use virt_learn_program.Vmx.Dump.Names.{
  Field, Segment, Table, position, segment_number, table_number,
}
use virt_learn_program.Vmx.Dump.Cpu.{vmx_dump_cpu}
use virt_learn_program.Vmx.Dump.Reads.{IsLaidOut, fetched, vmx_dump_cpu-reads}

-- A processor that numbers its fields from 0, with a bit for each feature.
abbrev constants : Constants
constants = record {
  enc = position;
  has_secondary = true;
  has_load_perf_global_ctrl = false;
  cr4_pae = 0x20;
  efer_lma = 0x400;
  exit_save_pat = 0x40000;
  exit_save_efer = 0x100000;
  exit_load_pat = 0x80000;
  exit_load_efer = 0x200000;
  exit_load_perf_global_ctrl = 0x1000;
  entry_load_pat = 0x4000;
  entry_load_efer = 0x8000;
  entry_load_perf_global_ctrl = 0x2000;
  entry_load_bndcfgs = 0x10000;
  tpr_shadow = 0x200000;
  posted_intr = 0x80;
  enable_ept = 2;
  enable_vpid = 0x20;
  virtual_intr_delivery = 0x200;
  virtualize_apic_accesses = 1;
  tsc_scaling = 0x2000000;
  pause_loop_exiting = 0x400;
}

segment_number-le : (s : Segment) → segment_number s ≤ 7
segment_number-le Names.es = omega arith
segment_number-le _ = omega arith

table_number-le : (t : Table) → table_number t ≤ 1
table_number-le Names.gdtr = omega arith
table_number-le _ = omega arith

position-below : (f : Field) → position f < 4294967296
position-below (Names.selector s) = let h = segment_number-le s in omega (arith, h)
position-below (Names.ar_bytes s) = let h = segment_number-le s in omega (arith, h)
position-below (Names.limit s) = let h = segment_number-le s in omega (arith, h)
position-below (Names.base s) = let h = segment_number-le s in omega (arith, h)
position-below (Names.dt_limit t) = let h = table_number-le t in omega (arith, h)
position-below (Names.dt_base t) = let h = table_number-le t in omega (arith, h)
position-below _ = omega arith

laid_out : IsLaidOut position
laid_out = record {
  distinct = λ f g. (λ e. e, λ e. e);
  below = position-below;
  rights = λ s. omega arith;
  limits = λ s. omega arith;
  bases = λ s. omega arith;
  tables = λ t. omega arith;
}

-- Of the secondary controls, only the one for nested paging is on.
abbrev held : ℕ → ℕ
held n = if n == position Names.secondary_vm_exec_control then 2 else 0

-- The identifier of the processor's address space is then not read.
no_vpid : fetched (position Names.virtual_processor_id) (vmx_dump_cpu constants true held) ≡ false
unfolding controls
no_vpid = vmx_dump_cpu-reads constants held true laid_out Names.virtual_processor_id
