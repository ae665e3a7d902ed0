-- ===== src/Guest/Mode/Start.antt =====
-- The whole way from real mode to long mode.
use virt_learn_program.Guest.Paging.Walk.{walk}
use virt_learn_program.Guest.Paging.Pages.{init_paging-maps, mappings, Mapping}
use virt_learn_program.Base.{
  ◌⊎◌, ◌+◌, ◌<◌, get_elem?, ℕ, ◌∙◌, ◌≡◌, ◌/◌, ◌%◌, ◌^◌, inl, inr, true, false, ◌&&◌, Bool-cases,
  some, arith, refl,
}
use virt_learn_program.Guest.Memory.{qword_at, Memory}
use virt_learn_program.Guest.Paging.{init_paging}
use virt_learn_program.Guest.Mode.{bts, entry32, start, pae_enable, set_lme, open_long_mode}
use virt_learn_program.Guest.Mode.Processor.{
  Features, Cpu, ◌>>=◌, goes_on, protection_fault, is_set, accepts, IsLong,
}
use virt_learn_program.Guest.Mode.Registers.{
  is_set-bts, is_set-bts_self, is_set-bts_ne, accepts-bts, accepts-is_set,
}
use virt_learn_program.Guest.Mode.Long.{
  IsReal, open_protected_mode-goes_on, open_long_mode-goes_on, open_long_mode-faults,
  open_sse-goes_on, open_sse-faults, pae_enable-goes_on, pae_enable-skips, set_lme-goes_on,
  set_lme-faults,
}

-- A processor as the program may find it: its registers hold what it accepts, it reports PAE where
-- the bit may be set, and it is the one that starts the others.
pub record IsFound (f : Features) (cpu : Cpu) : Type 0 where
  pub real : IsReal cpu
  pub cr4_fits : accepts f.cr4_bit 32 cpu.cr4 ≡ true
  pub efer_fits : accepts f.efer_bit 32 cpu.efer ≡ true
  pub reported : is_set 6 f.edx_of_leaf1 ≡ f.cr4_bit 5
  pub first : f.apic_base / 2 ^ 8 % 2 ≡ 1

-- The registers and the memory that the program ends with.
abbrev pub at_end : Cpu → Memory → Cpu
at_end cpu mem = record {
  cr0 = bts 31 (bts 0 cpu.cr0);
  cr3 = 0x200000;
  cr4 = bts 5 (bts 13 (bts 9 cpu.cr4));
  efer = bts 10 (bts 8 cpu.efer);
  memory = mem;
}

pub at_end-IsLong : (cpu : Cpu) (mem : Memory) → IsLong (at_end cpu mem)
at_end-IsLong cpu mem = record {
  protected = is_set-bts 0 31 (bts 0 cpu.cr0) (is_set-bts_self 0 cpu.cr0);
  paging = is_set-bts_self 31 (bts 0 cpu.cr0);
  pae = is_set-bts_self 5 (bts 13 (bts 9 cpu.cr4));
  active = is_set-bts_self 10 (bts 8 cpu.efer);
}

module _ (f : Features) (cpu : Cpu) (found : IsFound f cpu) where
  abbrev protected : Cpu
  protected = record cpu { cr0 = bts 0 cpu.cr0 }

  abbrev with_sse : Cpu
  with_sse = record protected { cr4 = bts 13 (bts 9 cpu.cr4) }

  abbrev with_pae : Cpu
  with_pae = record with_sse { cr4 = bts 5 (bts 13 (bts 9 cpu.cr4)) }

  protected-IsReal : IsReal protected
  protected-IsReal = record {
    unpaged = is_set-bts_ne 31 0 cpu.cr0 (omega arith) ∙ found.real.unpaged;
    cache =
        rw (is_set-bts_ne 29 0 cpu.cr0 (omega arith), is_set-bts_ne 30 0 cpu.cr0 (omega arith))
          found.real.cache;
  }

  still_fits :
      f.cr4_bit 9 ≡ true
      → f.cr4_bit 13 ≡ true
      → accepts f.cr4_bit 32 (bts 13 (bts 9 cpu.cr4)) ≡ true
  still_fits b9 b13 =
      accepts-bts f.cr4_bit 32 13 (bts 9 cpu.cr4) b13
      ∙ (accepts-bts f.cr4_bit 32 9 cpu.cr4 b9 ∙ found.cr4_fits)

  -- What is left after the tables.
  start-tables :
      (c : Cpu) (mem : Memory)
      → f.cr4_bit 9 ≡ true
      → f.cr4_bit 13 ≡ true
      → pae_enable f with_sse ≡ goes_on c
      → init_paging f.apic_base c.memory ≡ some mem
      → start f cpu ≡ (set_lme f (record c { memory = mem; cr3 = 0x200000 }) >>= open_long_mode)
  unfolding start entry32
  start-tables c mem b9 b13 pae tables =
      let e1 = open_protected_mode-goes_on cpu found.real in
      let e2 = open_sse-goes_on f protected found.cr4_fits b9 b13 in rw (e1, e2, pae, tables) refl

  start-no_sse : (f.cr4_bit 9 && f.cr4_bit 13) ≡ false → start f cpu ≡ protection_fault
  unfolding start entry32
  start-no_sse off =
      let e1 = open_protected_mode-goes_on cpu found.real in
      let e2 = open_sse-faults f protected off in rw (e1, e2) refl

  module _ (mem : Memory) (tables : init_paging f.apic_base cpu.memory ≡ some mem)
      (b9 : f.cr4_bit 9 ≡ true) (b13 : f.cr4_bit 13 ≡ true) where
    pae_taken : f.cr4_bit 5 ≡ true → pae_enable f with_sse ≡ goes_on with_pae
    pae_taken b5 = pae_enable-goes_on f with_sse (still_fits b9 b13) (found.reported ∙ b5) b5

    pae_skipped : f.cr4_bit 5 ≡ false → pae_enable f with_sse ≡ goes_on with_sse
    pae_skipped b5 = pae_enable-skips f with_sse (found.reported ∙ b5)

    pub start-entered :
        f.cr4_bit 5 ≡ true → f.efer_bit 8 ≡ true → start f cpu ≡ goes_on (at_end cpu mem)
    start-entered b5 b8 =
        let tabled = record with_pae { memory = mem; cr3 = 0x200000 } in
        let e4 = set_lme-goes_on f tabled protected-IsReal.unpaged found.efer_fits b8 in
        let e5 =
          open_long_mode-goes_on (record tabled { efer = bts 8 cpu.efer })
            (is_set-bts_self 0 cpu.cr0) protected-IsReal.cache (is_set-bts_self 8 cpu.efer)
            (is_set-bts_self 5 (bts 13 (bts 9 cpu.cr4))) in
        rw (start-tables with_pae mem b9 b13 (pae_taken b5) tables, e4, e5) refl

    start-no_pae : f.cr4_bit 5 ≡ false → f.efer_bit 8 ≡ true → start f cpu ≡ protection_fault
    start-no_pae b5 b8 =
        let tabled = record with_sse { memory = mem; cr3 = 0x200000 } in
        let e4 = set_lme-goes_on f tabled protected-IsReal.unpaged found.efer_fits b8 in
        let clear =
          accepts-is_set f.cr4_bit 32 5 with_sse.cr4 (omega arith) (still_fits b9 b13) b5 in
        let e5 =
          open_long_mode-faults (record tabled { efer = bts 8 cpu.efer })
            (is_set-bts_self 8 cpu.efer) clear in
        rw (start-tables with_sse mem b9 b13 (pae_skipped b5) tables, e4, e5) refl

    start-no_lme : f.efer_bit 8 ≡ false → start f cpu ≡ protection_fault
    start-no_lme b8 = elim (Bool-cases (f.cr4_bit 5)) [
      | inl b5 ↦
          let e4 = set_lme-faults f (record with_pae { memory = mem; cr3 = 0x200000 }) b8 in
          rw (start-tables with_pae mem b9 b13 (pae_taken b5) tables, e4) refl
      | inr b5 ↦
          let e4 = set_lme-faults f (record with_sse { memory = mem; cr3 = 0x200000 }) b8 in
          rw (start-tables with_sse mem b9 b13 (pae_skipped b5) tables, e4) refl
    ]

  start-no_mode :
      (mem : Memory)
      → init_paging f.apic_base cpu.memory ≡ some mem
      → f.cr4_bit 9 ≡ true
      → f.cr4_bit 13 ≡ true
      → (f.cr4_bit 5 && f.efer_bit 8) ≡ false
      → start f cpu ≡ protection_fault
  start-no_mode mem tables b9 b13 off = elim (Bool-cases (f.efer_bit 8)) [
    | inr b8 ↦ start-no_lme mem tables b9 b13 b8
    | inl b8 ↦ start-no_pae mem tables b9 b13 (ground (arith, off, b8)) b8
  ]

-- The processor is found with paging off, with registers that it accepts, with a report of PAE
-- where it offers PAE, and as the one that starts the others. Then the program gets to the jump
-- into the code of 64 bits if the processor offers the saving of SSE registers (bit 9 of `cr4`),
-- virtualization (13), PAE (5) and long mode (8 of the extended feature register), and else is
-- stopped by a protection fault. Where it gets there, long mode is on, and from `cr3` each address
-- of each page of the list is translated to the same place of the physical page.
pub start-IsLong :
    (f : Features) (cpu : Cpu) (i : ℕ) (m : Mapping) (o : ℕ)
    → IsFound f cpu
    → get_elem? mappings i ≡ some m
    → o < m.page_size
    → ((((f.cr4_bit 9 && f.cr4_bit 13) && (f.cr4_bit 5 && f.efer_bit 8)) ≡ true)
        × (cpu' : Cpu) × (start f cpu ≡ goes_on cpu')
        × IsLong cpu'
        × (walk (qword_at cpu'.memory) cpu'.cr3 (m.virtual + o)
            ≡ some (record {
              page_size = m.page_size;
              physical = m.physical + o;
              user = m.user;
              writable = true;
            })))
      ⊎ ((((f.cr4_bit 9 && f.cr4_bit 13) && (f.cr4_bit 5 && f.efer_bit 8)) ≡ false)
          × (start f cpu ≡ protection_fault))
start-IsLong f cpu i m o found listed inside =
    let (mem, tables, leads) =
      init_paging-maps f.apic_base cpu.memory i m o found.first listed inside in
    let b9_13 = f.cr4_bit 9 && f.cr4_bit 13 in
    elim (Bool-cases b9_13) [
      | inr off ↦ inr (ground (arith, off), start-no_sse f cpu found off)
      | inl on ↦
          let b9 : f.cr4_bit 9 ≡ true = ground (arith, on) in
          let b13 : f.cr4_bit 13 ≡ true = ground (arith, on) in
          elim (Bool-cases (f.cr4_bit 5 && f.efer_bit 8)) [
            | inr off ↦ inr (ground (arith, off), start-no_mode f cpu found mem tables b9 b13 off)
            | inl both ↦
                let b5 : f.cr4_bit 5 ≡ true = ground (arith, both) in
                let b8 : f.efer_bit 8 ≡ true = ground (arith, both) in
                let entered = start-entered f cpu found mem tables b9 b13 b5 b8 in
                inl
                  (ground (arith, on, both), at_end cpu mem, entered, at_end-IsLong cpu mem, leads)
          ]
    ]
