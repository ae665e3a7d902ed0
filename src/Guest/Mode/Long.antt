-- ===== src/Guest/Mode/Long.antt =====
-- Whether the guest program gets to long mode.
use virt_learn_program.Base.{◌≡◌, inl, inr, true, false, not, ◌&&◌, Bool-cases, arith, refl}
use virt_learn_program.Guest.Mode.{
  bts, open_protected_mode, open_sse, pae_enable, set_lme, open_long_mode,
}
use virt_learn_program.Guest.Mode.Processor.{
  Features, Cpu, goes_on, protection_fault, is_set, accepts,
}
use virt_learn_program.Guest.Mode.Registers.{
  is_set-bts, is_set-bts_self, is_set-bts_ne, accepts-bts, accepts-refuses,
}

-- Paging is off, and not write through only if the cache is off.
pub record IsReal (cpu : Cpu) : Type 0 where
  pub unpaged : is_set 31 cpu.cr0 ≡ false
  pub cache : (is_set 29 cpu.cr0 && not (is_set 30 cpu.cr0)) ≡ false

pub open_protected_mode-goes_on :
    (cpu : Cpu)
    → IsReal cpu
    → open_protected_mode cpu ≡ goes_on (record cpu { cr0 = bts 0 cpu.cr0 })
unfolding open_protected_mode
open_protected_mode-goes_on cpu real =
    let p31 = is_set-bts_ne 31 0 cpu.cr0 (omega arith) in
    let p29 = is_set-bts_ne 29 0 cpu.cr0 (omega arith) in
    let p30 = is_set-bts_ne 30 0 cpu.cr0 (omega arith) in
    rw (p31, real.unpaged, p29, p30, real.cache) refl

pub open_long_mode-goes_on :
    (cpu : Cpu)
    → is_set 0 cpu.cr0 ≡ true
    → (is_set 29 cpu.cr0 && not (is_set 30 cpu.cr0)) ≡ false
    → is_set 8 cpu.efer ≡ true
    → is_set 5 cpu.cr4 ≡ true
    → open_long_mode cpu ≡ goes_on (record cpu { cr0 = bts 31 cpu.cr0; efer = bts 10 cpu.efer })
unfolding open_long_mode
open_long_mode-goes_on cpu pe cache lme pae =
    let p29 = is_set-bts_ne 29 31 cpu.cr0 (omega arith) in
    let p30 = is_set-bts_ne 30 31 cpu.cr0 (omega arith) in
    rw (is_set-bts_self 31 cpu.cr0, is_set-bts 0 31 cpu.cr0 pe, p29, p30, cache, lme, pae) refl

pub open_long_mode-faults :
    (cpu : Cpu)
    → is_set 8 cpu.efer ≡ true
    → is_set 5 cpu.cr4 ≡ false
    → open_long_mode cpu ≡ protection_fault
unfolding open_long_mode
open_long_mode-faults cpu lme pae = rw (is_set-bts_self 31 cpu.cr0, lme, pae) (ground arith)

module _ (f : Features) (cpu : Cpu) where
  pub open_sse-goes_on :
      accepts f.cr4_bit 32 cpu.cr4 ≡ true
      → f.cr4_bit 9 ≡ true
      → f.cr4_bit 13 ≡ true
      → open_sse f cpu ≡ goes_on (record cpu { cr4 = bts 13 (bts 9 cpu.cr4) })
  unfolding open_sse
  open_sse-goes_on ok b9 b13 =
      let e13 = accepts-bts f.cr4_bit 32 13 (bts 9 cpu.cr4) b13 in
      let e9 = accepts-bts f.cr4_bit 32 9 cpu.cr4 b9 in rw (e13, e9, ok) refl

  pub open_sse-faults : (f.cr4_bit 9 && f.cr4_bit 13) ≡ false → open_sse f cpu ≡ protection_fault
  unfolding open_sse
  open_sse-faults off = elim (Bool-cases (f.cr4_bit 13)) [
    | inr b13 ↦
        rw
          (accepts-refuses f.cr4_bit 32 13 (bts 13 (bts 9 cpu.cr4)) (omega arith)
            (is_set-bts_self 13 (bts 9 cpu.cr4)) b13)
          refl
    | inl b13 ↦
        let b9 : f.cr4_bit 9 ≡ false = ground (arith, off, b13) in
        rw
          (accepts-refuses f.cr4_bit 32 9 (bts 13 (bts 9 cpu.cr4)) (omega arith)
            (is_set-bts 9 13 (bts 9 cpu.cr4) (is_set-bts_self 9 cpu.cr4)) b9)
          refl
  ]

  pub pae_enable-goes_on :
      accepts f.cr4_bit 32 cpu.cr4 ≡ true
      → is_set 6 f.edx_of_leaf1 ≡ true
      → f.cr4_bit 5 ≡ true
      → pae_enable f cpu ≡ goes_on (record cpu { cr4 = bts 5 cpu.cr4 })
  unfolding pae_enable
  pae_enable-goes_on ok reported b5 = rw (reported, accepts-bts f.cr4_bit 32 5 cpu.cr4 b5, ok) refl

  pub pae_enable-skips : is_set 6 f.edx_of_leaf1 ≡ false → pae_enable f cpu ≡ goes_on cpu
  unfolding pae_enable
  pae_enable-skips not_reported = rw not_reported refl

  pub set_lme-goes_on :
      is_set 31 cpu.cr0 ≡ false
      → accepts f.efer_bit 32 cpu.efer ≡ true
      → f.efer_bit 8 ≡ true
      → set_lme f cpu ≡ goes_on (record cpu { efer = bts 8 cpu.efer })
  unfolding set_lme
  set_lme-goes_on unpaged ok b8 = rw (unpaged, accepts-bts f.efer_bit 32 8 cpu.efer b8, ok) refl

  pub set_lme-faults : f.efer_bit 8 ≡ false → set_lme f cpu ≡ protection_fault
  unfolding set_lme
  set_lme-faults b8 =
      rw
        (accepts-refuses f.efer_bit 32 8 (bts 8 cpu.efer) (omega arith) (is_set-bts_self 8 cpu.efer)
          b8)
        (ground arith)
