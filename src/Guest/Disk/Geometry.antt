-- ===== src/Guest/Disk/Geometry.antt =====
-- The parameters of a disk, from the firmware's answer to its addresses.
use native.Mathlib.Nat.{div-lt_iff_lt-mul}
use virt_learn_program.Guest.Disk.Address.{do_lba_to_chs-sector_at, IsAddressable, sector_at}
use virt_learn_program.Base.{
  sym, inr, inl, ◌∙◌, dec_lt, ◌⊎◌, ◌≤◌, refl, u16, zero, some, none, suc, ap, ℕ, ◌+◌, ◌*◌, ◌/◌, ◌%◌,
  ◌<◌, ◌≡◌, u8, bit_and, bit_and-1023, bit_and-sixty_three, false, arith,
}
use virt_learn_program.Guest.Disk.{
  do_lba_to_chs, Chs, Parameters, Answer, get_driver_parameters, low_byte,
}

-- The answer for a disk: the last cylinder, head and sector, and no error.
pub record IsAnswer (a : Answer) (cylinders heads sectors : ℕ) : Type 0 where
  pub good : a.carry ≡ false
  pub bytes : (a.ch < 256) × (a.cl < 256) × (a.dh < 256)
  pub last_cylinder : a.cl / 64 * 256 + a.ch + 1 ≡ cylinders
  pub last_head : a.dh + 1 ≡ heads
  pub last_sector : a.cl % 64 ≡ sectors

-- What the table has room for: no more than a byte was in each of its words.
pub record IsSmall (g : Parameters) : Type 0 where
  pub heads : g.header_maximum < 256
  pub sectors : g.sector_maximum < 256

module _ (a : Answer) (g : Parameters) (cylinders heads sectors : ℕ)
    (answer : IsAnswer a cylinders heads sectors) (small : IsSmall g) where
  get_driver_parameters-fields :
      let g' = (get_driver_parameters a g).0 in
      (g'.cylinder_maximum ≡ cylinders)
      × (g'.header_maximum ≡ u8 heads)
      × (g'.sector_maximum ≡ sectors)
  unfolding get_driver_parameters
  get_driver_parameters-fields =
      let c = a.cl / 64 * 256 + a.ch in
      let whole : c < 1024 = omega (arith, answer.bytes.0, answer.bytes.1) in
      let cylinder : bit_and c 0x3ff ≡ c = omega (arith, bit_and-1023 c) in
      let byte = low_byte g.sector_maximum a.cl in
      let track : bit_and byte 0x3f ≡ a.cl % 64 =
        omega (arith, bit_and-sixty_three byte, small.sectors) in
      rw (answer.good, cylinder, track)
        (
          omega (arith, answer.last_cylinder),
          omega (arith, small.heads, ap u8 answer.last_head),
          answer.last_sector,
        )

some_size : (cylinders size start : ℕ) → start < cylinders * size → 0 < size
some_size cylinders zero start h = absurd (omega arith)
some_size cylinders (suc size) start h = omega arith

positive : (heads sectors : ℕ) → 0 < heads * sectors → 0 < sectors
positive heads zero h = absurd (omega arith)
positive heads (suc sectors) h = omega arith

sector_at-same :
    (h h' s s' : ℕ) (c : Chs)
    → h ≡ h'
    → s ≡ s'
    → sector_at h s c.ch c.cl c.dh ≡ sector_at h' s' c.ch c.cl c.dh
sector_at-same h h' s s' c e f = rw (e, f) refl

no_heads :
    (g : Parameters) (eax start : ℕ)
    → eax < 65536
    → g.header_maximum ≡ 0
    → do_lba_to_chs g eax start ≡ none
unfolding do_lba_to_chs
no_heads g eax start low none_left =
    let ecx : eax / 65536 * 65536 + u16 (0 * g.sector_maximum) ≡ 0 = omega arith in
    rw (none_left, ecx) refl

-- The firmware answers for a disk without an error, the words of the table held no more than a
-- byte before, `eax` no more than 16 bits, and the sector is one of the disk's. Then with the
-- parameters that the answer leaves the sector's address is one that the firmware reads as that
-- sector, if the disk has fewer than 256 heads; a disk with 256 heads leaves 0 for them, and the
-- routine divides by 0.
pub get_driver_parameters-sector_at :
    (a : Answer) (g : Parameters) (cylinders heads sectors eax start : ℕ)
    → IsAnswer a cylinders heads sectors
    → IsSmall g
    → eax < 65536
    → start < cylinders * (heads * sectors)
    → let g' = (get_driver_parameters a g).0 in
      ((heads < 256)
        × (c : Chs) × (do_lba_to_chs g' eax start ≡ some c)
        × (sector_at heads sectors c.ch c.cl c.dh ≡ start)
        × (c.dh < heads)
        × (0 < c.cl % 64)
        × (c.cl % 64 ≤ sectors))
      ⊎ ((heads ≡ 256) × (do_lba_to_chs g' eax start ≡ none))
get_driver_parameters-sector_at a g cylinders heads sectors eax start answer small low inside =
    let g' = (get_driver_parameters a g).0 in
    let (_, hs, ss) = get_driver_parameters-fields a g cylinders heads sectors answer small in
    elim (dec_lt heads 256) [
      | yes few ↦
          let same : g'.header_maximum ≡ heads = hs ∙ omega arith in
          let size = some_size cylinders (heads * sectors) start inside in
          let disk : IsAddressable g' = record {
            heads = omega (arith, same, answer.last_head);
            few_heads = omega (arith, same);
            sectors = omega (arith, ss, positive heads sectors size);
            few_sectors = omega (arith, ss, answer.last_sector);
          } in
          let first : start / (g'.header_maximum * g'.sector_maximum) < 1024 =
            rw (same, ss)
              (omega (
                arith,
                (div-lt_iff_lt-mul size).1 inside,
                answer.last_cylinder,
                answer.bytes.0,
                answer.bytes.1,
              )) in
          let (c, ends, sector, head, low_end, high_end, _) =
            do_lba_to_chs-sector_at g' eax start disk low first in
          inl (
            few,
            c,
            ends,
            sector_at-same _ _ _ _ c (sym same) (sym ss) ∙ sector,
            omega (arith, same, head),
            low_end,
            omega (arith, ss, high_end),
          )
      | no many ↦
          let all : heads ≡ 256 = omega (arith, many, answer.last_head, answer.bytes.2) in
          let zero_heads : g'.header_maximum ≡ 0 = hs ∙ omega (arith, all) in
          inr (all, no_heads g' eax start low zero_heads)
    ]
