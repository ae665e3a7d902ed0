-- ===== src/Vmx/Dump.antt =====
-- vmx_mod/vmx.c: `vmx_dump_cpu`, which prints the control structure of a processor. What it prints is
-- a list of events: a field is read, or a line is printed.
pub mod Names
pub mod Cpu
pub mod Reads
mod Examples
use virt_learn_program.Base.{
  ℕ, ◌+◌, ◌-◌, ◌/◌, Bool, true, not, ◌&&◌, ◌||◌, ◌==◌, if◌then◌else◌, List, [], ◌∷◌, ◌++◌, map,
  bit_and, bit_or, u16, u32, u64,
}
use virt_learn_program.Vmx.Dump.Names.*

-- What the kernel's headers and the processor say: the number of a field, and the masks of the bits.
pub record Constants : Type 0 where
  pub enc : Field → ℕ
  pub has_secondary : Bool
  pub has_load_perf_global_ctrl : Bool
  pub cr4_pae : ℕ
  pub efer_lma : ℕ
  pub exit_save_pat : ℕ
  pub exit_save_efer : ℕ
  pub exit_load_pat : ℕ
  pub exit_load_efer : ℕ
  pub exit_load_perf_global_ctrl : ℕ
  pub entry_load_pat : ℕ
  pub entry_load_efer : ℕ
  pub entry_load_perf_global_ctrl : ℕ
  pub entry_load_bndcfgs : ℕ
  pub tpr_shadow : ℕ
  pub posted_intr : ℕ
  pub enable_ept : ℕ
  pub enable_vpid : ℕ
  pub virtual_intr_delivery : ℕ
  pub virtualize_apic_accesses : ℕ
  pub tsc_scaling : ℕ
  pub pause_loop_exiting : ℕ

-- The accessor that a field is read with: `vmcs_read16`, `32`, `64` and `l`.
pub data Width : Type 0 where
  w16 w32 w64 wl : Width

abbrev pub cut : Width → ℕ → ℕ
cut w16 n = u16 n
cut w32 n = u32 n
cut w64 n = u64 n
cut wl n = u64 n

pub data Event : Type 0 where
  reads : Width → ℕ → Event
  prints : List ℕ → Event
  warns : Event

-- An argument of a `printk`: a field, or a value that the code has already.
pub data Arg : Type 0 where
  value : Width → Field → Arg
  known : ℕ → Arg

-- A statement of the dump: a field is read into a variable, a line is printed, or one of the two
-- functions for a segment and a table is called.
pub data Statement : Type 0 where
  assigns : Width → Field → Statement
  printk : List Arg → Statement
  dump_sel : Segment → Statement
  dump_dtsel : Table → Statement

-- `x & mask` as a condition.
abbrev pub has : ℕ → ℕ → Bool
has mask x = not (bit_and x mask == 0)

-- The variables of `vmx_dump_cpu`.
pub record Controls : Type 0 where
  pub vmentry_ctl : ℕ
  pub vmexit_ctl : ℕ
  pub cpu_based : ℕ
  pub pin_based : ℕ
  pub cr4 : ℕ
  pub efer : ℕ
  pub secondary : ℕ

module _ (k : Constants) (read : ℕ → ℕ) where
  unfoldable pub vmx_dump_sel : ℕ → List Event
  vmx_dump_sel sel =
      let ar = u32 (sel + k.enc (ar_bytes es) + 4294967296 - k.enc (selector es)) in
      let lim = u32 (sel + k.enc (limit es) + 4294967296 - k.enc (selector es)) in
      let bas = u32 (sel + k.enc (base es) + 4294967296 - k.enc (selector es)) in
      reads w16 sel
      ∷ reads w32 ar
      ∷ reads w32 lim
      ∷ reads wl bas
      ∷ prints (u16 (read sel) ∷ u32 (read ar) ∷ u32 (read lim) ∷ u64 (read bas) ∷ [])
      ∷ []

  unfoldable pub vmx_dump_dtsel : ℕ → List Event
  vmx_dump_dtsel lim =
      let bas = u32 (lim + k.enc (dt_base gdtr) + 4294967296 - k.enc (dt_limit gdtr)) in
      reads w32 lim ∷ reads wl bas ∷ prints (u32 (read lim) ∷ u64 (read bas) ∷ []) ∷ []

  abbrev pub fetch : List Arg → List Event
  fetch [] = []
  fetch (value w f ∷ args) = reads w (k.enc f) ∷ fetch args
  fetch (known n ∷ args) = fetch args

  abbrev pub printed : Arg → ℕ
  printed (value w f) = cut w (read (k.enc f))
  printed (known n) = n

  unfoldable pub perform : Statement → List Event
  unfolding vmx_dump_sel vmx_dump_dtsel
  perform (assigns w f) = reads w (k.enc f) ∷ []
  perform (printk args) = fetch args ++ prints (map printed args) ∷ []
  perform (dump_sel s) = vmx_dump_sel (k.enc (selector s))
  perform (dump_dtsel t) = vmx_dump_dtsel (k.enc (dt_limit t))

  -- Statements under their conditions, in order.
  unfoldable pub run : List (Bool × Statement) → List Event
  unfolding perform
  run [] = []
  run ((guard, s) ∷ rest) = let later = run rest in if guard then perform s ++ later else later

  -- The variables, as `vmx_dump_cpu` sets them at its start.
  unfoldable pub controls : Controls
  controls = record {
    vmentry_ctl = u32 (read (k.enc vm_entry_controls));
    vmexit_ctl = u32 (read (k.enc vm_exit_controls));
    cpu_based = u32 (read (k.enc cpu_based_vm_exec_control));
    pin_based = u32 (read (k.enc pin_based_vm_exec_control));
    cr4 = u64 (read (k.enc guest_cr4));
    efer = u64 (read (k.enc guest_ia32_efer));
    secondary = if k.has_secondary then u32 (read (k.enc secondary_vm_exec_control)) else 0;
  }
