-- ===== src/Vmx/Dump/Reads.antt =====
-- Which fields the dump reads.
use virt_learn_program.Base.{
  u32, ℕ, ◌+◌, ◌-◌, ◌<◌, Bool, true, false, not, ◌&&◌, ◌||◌, ◌==◌, if◌then◌else◌, List, [], ◌∷◌,
  ◌++◌, map, bit_or, ◌≡◌, ◌↔◌, ◌∙◌, refl, arith,
}
use virt_learn_program.Vmx.Dump.{
  Constants, Event, reads, prints, warns, Arg, value, known, Statement, assigns, printk, dump_sel,
  dump_dtsel, has, Controls, vmx_dump_sel, vmx_dump_dtsel, fetch, printed, perform, run, controls,
}
use virt_learn_program.Vmx.Dump.Names
use virt_learn_program.Vmx.Dump.Names.{Field, Segment, Table, position}
use virt_learn_program.Vmx.Dump.Cpu.{
  variables, guest_registers, guest_segments, guest_rest, host_state, control_state,
  optional_controls, vmx_dump_cpu, statements,
}

-- Different fields have different 32-bit numbers, and the fields of each segment and of each table
-- stand at the same distances.
pub record IsLaidOut (enc : Field → ℕ) : Type 0 where
  pub distinct : (f g : Field) → (enc f ≡ enc g) ↔ (position f ≡ position g)
  pub below : (f : Field) → enc f < 4294967296
  pub rights :
      (s : Segment)
      → enc (Names.ar_bytes s) + enc (Names.selector Names.es)
        ≡ enc (Names.selector s) + enc (Names.ar_bytes Names.es)
  pub limits :
      (s : Segment)
      → enc (Names.limit s) + enc (Names.selector Names.es)
        ≡ enc (Names.selector s) + enc (Names.limit Names.es)
  pub bases :
      (s : Segment)
      → enc (Names.base s) + enc (Names.selector Names.es)
        ≡ enc (Names.selector s) + enc (Names.base Names.es)
  pub tables :
      (t : Table)
      → enc (Names.dt_base t) + enc (Names.dt_limit Names.gdtr)
        ≡ enc (Names.dt_limit t) + enc (Names.dt_base Names.gdtr)

-- Whether field number `n` is read.
abbrev pub fetched : ℕ → List Event → Bool
fetched n [] = false
fetched n (reads w m ∷ es) = (m == n) || fetched n es
fetched n (prints ns ∷ es) = fetched n es
fetched n (warns ∷ es) = fetched n es

-- The condition under which each field is read: of a feature's fields, that the feature is on. PAT
-- and EFER share one condition.
abbrev pub wanted : Constants → Controls → Field → Bool
wanted k c Names.secondary_vm_exec_control = k.has_secondary
wanted k c Names.guest_pdptr0 =
    has k.enable_ept c.secondary && (has k.cr4_pae c.cr4 && not (has k.efer_lma c.efer))
wanted k c Names.guest_pdptr1 =
    has k.enable_ept c.secondary && (has k.cr4_pae c.cr4 && not (has k.efer_lma c.efer))
wanted k c Names.guest_pdptr2 =
    has k.enable_ept c.secondary && (has k.cr4_pae c.cr4 && not (has k.efer_lma c.efer))
wanted k c Names.guest_pdptr3 =
    has k.enable_ept c.secondary && (has k.cr4_pae c.cr4 && not (has k.efer_lma c.efer))
wanted k c Names.guest_ia32_pat =
    has (bit_or k.exit_save_pat k.exit_save_efer) c.vmexit_ctl
    || has (bit_or k.entry_load_pat k.entry_load_efer) c.vmentry_ctl
wanted k c Names.guest_ia32_perf_global_ctrl =
    k.has_load_perf_global_ctrl && has k.entry_load_perf_global_ctrl c.vmentry_ctl
wanted k c Names.guest_bndcfgs = has k.entry_load_bndcfgs c.vmentry_ctl
wanted k c Names.guest_intr_status = has k.virtual_intr_delivery c.secondary
wanted k c Names.host_ia32_efer = has (bit_or k.exit_load_pat k.exit_load_efer) c.vmexit_ctl
wanted k c Names.host_ia32_pat = has (bit_or k.exit_load_pat k.exit_load_efer) c.vmexit_ctl
wanted k c Names.host_ia32_perf_global_ctrl =
    k.has_load_perf_global_ctrl && has k.exit_load_perf_global_ctrl c.vmexit_ctl
wanted k c Names.tsc_multiplier = has k.tsc_scaling c.secondary
wanted k c Names.tpr_threshold = has k.tpr_shadow c.cpu_based
wanted k c Names.apic_access_addr =
    has k.tpr_shadow c.cpu_based && has k.virtualize_apic_accesses c.secondary
wanted k c Names.virtual_apic_page_addr = has k.tpr_shadow c.cpu_based
wanted k c Names.posted_intr_nv = has k.posted_intr c.pin_based
wanted k c Names.ept_pointer = has k.enable_ept c.secondary
wanted k c Names.ple_gap = has k.pause_loop_exiting c.secondary
wanted k c Names.ple_window = has k.pause_loop_exiting c.secondary
wanted k c Names.virtual_processor_id = has k.enable_vpid c.secondary
wanted k c _ = true

fetched-++ : (n : ℕ) (xs ys : List Event) → fetched n (xs ++ ys) ≡ (fetched n xs || fetched n ys)
fetched-++ n [] ys = refl
fetched-++ n (reads w m ∷ xs) ys = ground (arith, fetched-++ n xs ys)
fetched-++ n (prints ns ∷ xs) ys = fetched-++ n xs ys
fetched-++ n (warns ∷ xs) ys = fetched-++ n xs ys

-- The fields that a statement reads, by name.
abbrev arg_fields : List Arg → List Field
arg_fields [] = []
arg_fields (value w f ∷ args) = f ∷ arg_fields args
arg_fields (known n ∷ args) = arg_fields args

abbrev fields : Statement → List Field
fields (assigns w f) = f ∷ []
fields (printk args) = arg_fields args
fields (dump_sel s) = Names.selector s ∷ Names.ar_bytes s ∷ Names.limit s ∷ Names.base s ∷ []
fields (dump_dtsel t) = Names.dt_limit t ∷ Names.dt_base t ∷ []

abbrev names : Field → List Field → Bool
names f [] = false
names f (g ∷ gs) = (position g == position f) || names f gs

-- Whether `f` is read by statements under their conditions.
abbrev shown : Field → List (Bool × Statement) → Bool
shown f [] = false
shown f ((guard, s) ∷ rest) =
    let later = shown f rest in
    if names f (fields s) then (if guard then true else later) else later

same_if : (a b c d : ℕ) → ((a ≡ b) ↔ (c ≡ d)) → (a == b) ≡ (c == d)
same_if a b c d h = ground (arith, h)

-- An unsigned offset that is not below the number that is taken off.
offset :
    (sel part ref own : ℕ)
    → own < 4294967296
    → ref < 4294967296
    → own + ref ≡ sel + part
    → u32 (sel + part + 4294967296 - ref) ≡ own
offset sel part ref own small ref_small h = omega arith

if_or : (b c : Bool) → (b || c) ≡ (if b then true else c)
if_or true c = refl
if_or false c = refl

if_same : (b c : Bool) → c ≡ (if b then c else c)
if_same true c = refl
if_same false c = refl

||-false : (b : Bool) → (b || false) ≡ b
||-false true = refl
||-false false = refl

module _ (k : Constants) (read : ℕ → ℕ) (laid : IsLaidOut k.enc) where
  same_test : (f g : Field) → (k.enc g == k.enc f) ≡ (position g == position f)
  same_test f g = same_if (k.enc g) (k.enc f) (position g) (position f) (laid.distinct g f)

  fetch-names :
      (f : Field) (args : List Arg)
      → fetched (k.enc f) (fetch k read args) ≡ names f (arg_fields args)
  fetch-names f [] = refl
  fetch-names f (value w g ∷ args) = rw (same_test f g, fetch-names f args) refl
  fetch-names f (known n ∷ args) = fetch-names f args

  perform-names :
      (f : Field) (s : Statement) → fetched (k.enc f) (perform k read s) ≡ names f (fields s)
  unfolding perform vmx_dump_sel vmx_dump_dtsel
  perform-names f (assigns w g) = rw (same_test f g) refl
  perform-names f (printk args) =
      fetched-++ (k.enc f) (fetch k read args) (prints (map (printed k read) args) ∷ [])
      ∙ ||-false _
      ∙ fetch-names f args
  perform-names f (dump_sel s) =
      rw
        (
          offset (k.enc (Names.selector s)) (k.enc (Names.ar_bytes Names.es))
              (k.enc (Names.selector Names.es)) (k.enc (Names.ar_bytes s)) (laid.below _)
              (laid.below _) (laid.rights s),
          offset (k.enc (Names.selector s)) (k.enc (Names.limit Names.es))
              (k.enc (Names.selector Names.es)) (k.enc (Names.limit s)) (laid.below _)
              (laid.below _) (laid.limits s),
          offset (k.enc (Names.selector s)) (k.enc (Names.base Names.es))
              (k.enc (Names.selector Names.es)) (k.enc (Names.base s)) (laid.below _) (laid.below _)
              (laid.bases s),
          same_test f (Names.selector s),
          same_test f (Names.ar_bytes s),
          same_test f (Names.limit s),
          same_test f (Names.base s),
        )
        refl
  perform-names f (dump_dtsel t) =
      rw
        (
          offset (k.enc (Names.dt_limit t)) (k.enc (Names.dt_base Names.gdtr))
              (k.enc (Names.dt_limit Names.gdtr)) (k.enc (Names.dt_base t)) (laid.below _)
              (laid.below _) (laid.tables t),
          same_test f (Names.dt_limit t),
          same_test f (Names.dt_base t),
        )
        refl

  run-shown :
      (f : Field) (bs : List (Bool × Statement)) → fetched (k.enc f) (run k read bs) ≡ shown f bs
  unfolding run
  run-shown f [] = refl
  run-shown f ((true, s) ∷ rest) =
      fetched-++ (k.enc f) (perform k read s) (run k read rest)
      ∙ rw (perform-names f s, run-shown f rest) (if_or (names f (fields s)) (shown f rest))
  run-shown f ((false, s) ∷ rest) = run-shown f rest ∙ if_same (names f (fields s)) (shown f rest)

if_itself : (b : Bool) → (if b then true else false) ≡ b
if_itself true = refl
if_itself false = refl

if_twice : (a b : Bool) → (if a then true else if b && a then true else false) ≡ a
if_twice true b = refl
if_twice false true = refl
if_twice false false = refl

module _ (k : Constants) (c : Controls) (status : ℕ) where
  selector_shown : (s : Segment) → shown (Names.selector s) (statements k c status) ≡ true
  unfolding statements variables guest_registers guest_segments guest_rest host_state control_state
      optional_controls
  selector_shown Names.es = refl
  selector_shown _ = refl

  ar_bytes_shown : (s : Segment) → shown (Names.ar_bytes s) (statements k c status) ≡ true
  unfolding statements variables guest_registers guest_segments guest_rest host_state control_state
      optional_controls
  ar_bytes_shown Names.es = refl
  ar_bytes_shown _ = refl

  limit_shown : (s : Segment) → shown (Names.limit s) (statements k c status) ≡ true
  unfolding statements variables guest_registers guest_segments guest_rest host_state control_state
      optional_controls
  limit_shown Names.es = refl
  limit_shown _ = refl

  base_shown : (s : Segment) → shown (Names.base s) (statements k c status) ≡ true
  unfolding statements variables guest_registers guest_segments guest_rest host_state control_state
      optional_controls
  base_shown Names.es = refl
  base_shown _ = refl

  dt_limit_shown : (s : Table) → shown (Names.dt_limit s) (statements k c status) ≡ true
  unfolding statements variables guest_registers guest_segments guest_rest host_state control_state
      optional_controls
  dt_limit_shown Names.gdtr = refl
  dt_limit_shown _ = refl

  dt_base_shown : (s : Table) → shown (Names.dt_base s) (statements k c status) ≡ true
  unfolding statements variables guest_registers guest_segments guest_rest host_state control_state
      optional_controls
  dt_base_shown Names.gdtr = refl
  dt_base_shown _ = refl

  shown-wanted : (f : Field) → shown f (statements k c status) ≡ wanted k c f
  unfolding statements variables guest_registers guest_segments guest_rest host_state control_state
      optional_controls
  shown-wanted Names.secondary_vm_exec_control = if_itself _
  shown-wanted Names.guest_pdptr0 = if_itself _
  shown-wanted Names.guest_pdptr1 = if_itself _
  shown-wanted Names.guest_pdptr2 = if_itself _
  shown-wanted Names.guest_pdptr3 = if_itself _
  shown-wanted Names.guest_ia32_pat = if_itself _
  shown-wanted Names.guest_ia32_perf_global_ctrl = if_itself _
  shown-wanted Names.guest_bndcfgs = if_itself _
  shown-wanted Names.guest_intr_status = if_twice _ _
  shown-wanted Names.host_ia32_efer = if_itself _
  shown-wanted Names.host_ia32_pat = if_itself _
  shown-wanted Names.host_ia32_perf_global_ctrl = if_itself _
  shown-wanted Names.tsc_multiplier = if_itself _
  shown-wanted Names.tpr_threshold = if_itself _
  shown-wanted Names.apic_access_addr = if_itself _
  shown-wanted Names.virtual_apic_page_addr = if_itself _
  shown-wanted Names.posted_intr_nv = if_itself _
  shown-wanted Names.ept_pointer = if_itself _
  shown-wanted Names.ple_gap = if_itself _
  shown-wanted Names.ple_window = if_itself _
  shown-wanted Names.virtual_processor_id = if_itself _
  shown-wanted (Names.selector s) = selector_shown s
  shown-wanted (Names.ar_bytes s) = ar_bytes_shown s
  shown-wanted (Names.limit s) = limit_shown s
  shown-wanted (Names.base s) = base_shown s
  shown-wanted (Names.dt_limit t) = dt_limit_shown t
  shown-wanted (Names.dt_base t) = dt_base_shown t
  shown-wanted _ = refl

pub vmx_dump_cpu-reads :
    (k : Constants) (read : ℕ → ℕ) (invalid : Bool)
    → IsLaidOut k.enc
    → (f : Field)
    → fetched (k.enc f) (vmx_dump_cpu k invalid read) ≡ (invalid && wanted k (controls k read) f)
unfolding vmx_dump_cpu
vmx_dump_cpu-reads k read true laid f =
    run-shown k read laid f _ ∙ shown-wanted k (controls k read) _ f
vmx_dump_cpu-reads k read false laid f = refl
