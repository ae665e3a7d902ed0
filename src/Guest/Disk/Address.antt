-- ===== src/Guest/Disk/Address.antt =====
-- The address of a sector in the form of the firmware's calls, both ways.
use virt_learn_program.Base.{
  refl, false, ◌||◌, ◌==◌, some, ◌≤◌, bit_or-above, bit_and-two_high, u16, bit_and, u8, bit_or,
  arith, ◌≡◌, ◌<◌, ℕ, ◌+◌, ◌-◌, ◌*◌, ◌/◌, ◌%◌,
}
use native.Mathlib.Nat.{
  div-add-mod', add-mul, mul_assoc, mul-pos, mod-lt, div-lt_iff_lt-mul, mul-le-mul,
}
use virt_learn_program.Guest.Disk.{Chs, do_lba_to_chs, Parameters}

-- The firmware's reading of its registers: the cylinder has two bits more in `cl`, and sectors are
-- counted from 1.
abbrev pub cylinder_of : ℕ → ℕ → ℕ
cylinder_of ch cl = cl / 64 * 256 + ch

abbrev pub sector_at : ℕ → ℕ → ℕ → ℕ → ℕ → ℕ
sector_at heads sectors ch cl dh = (cylinder_of ch cl * heads + dh) * sectors + (cl % 64 - 1)

-- Both parts of the byte with the sector and the high bits of the cylinder.
packed :
    (sector cylinder : ℕ)
    → sector < 64
    → cylinder < 1024
    → bit_or (u8 sector) (u8 (bit_and (u16 cylinder / 4) 0xc0)) ≡ sector + cylinder / 256 * 64
packed sector cylinder h k =
    let low : u8 sector ≡ sector = omega arith in
    let whole : u16 cylinder / 4 ≡ cylinder / 4 = omega arith in
    let high : u8 (bit_and (cylinder / 4) 0xc0) ≡ cylinder / 256 * 64 =
      omega (arith, bit_and-two_high (cylinder / 4) (omega arith)) in
    rw (low, whole, high) (bit_or-above 6 (cylinder / 256) sector (omega arith))

-- A number in three places, and back.
three_places : (n h s : ℕ) → (n / (h * s) * h + n % (h * s) / s) * s + n % (h * s) % s ≡ n
three_places n h s = omega (
  arith,
  div-add-mod' n (h * s),
  div-add-mod' (n % (h * s)) s,
  add-mul (n / (h * s) * h) (n % (h * s) / s) s,
  mul_assoc (n / (h * s)) h s,
)

-- A disk that the calls can address: some heads, of at most 63 sectors, in 16 bits.
pub record IsAddressable (g : Parameters) : Type 0 where
  pub heads : 0 < g.header_maximum
  pub few_heads : g.header_maximum ≤ 256
  pub sectors : 0 < g.sector_maximum
  pub few_sectors : g.sector_maximum ≤ 63

-- The disk can be addressed, `eax` held no more than 16 bits, and the sector is in one of the
-- first 1024 cylinders. Then the routine ends without a division by 0, what the firmware makes of
-- the registers is the sector again, the head is one of the disk's, the sector in the track one of
-- its 1 to `sector_maximum`, and what is left in `eax` has no more than 16 bits.
pub do_lba_to_chs-sector_at :
    (g : Parameters) (eax start : ℕ)
    → IsAddressable g
    → eax < 65536
    → start / (g.header_maximum * g.sector_maximum) < 1024
    → (c : Chs) × (do_lba_to_chs g eax start ≡ some c)
      × (sector_at g.header_maximum g.sector_maximum c.ch c.cl c.dh ≡ start)
      × (c.dh < g.header_maximum)
      × (0 < c.cl % 64)
      × (c.cl % 64 ≤ g.sector_maximum)
      × (c.eax < 65536)
unfolding do_lba_to_chs
do_lba_to_chs-sector_at g eax start disk small inside =
    let h = g.header_maximum in
    let s = g.sector_maximum in
    let size : h * s ≤ 256 * 63 = mul-le-mul disk.few_heads disk.few_sectors in
    let some_size : 0 < h * s = mul-pos disk.heads disk.sectors in
    let ecx : eax / 65536 * 65536 + u16 (h * s) ≡ h * s = omega arith in
    let cylinder = start / (h * s) in
    let head = start % (h * s) / s in
    let sector = start % (h * s) % s + 1 in
    let in_track : sector ≤ s = omega (arith, mod-lt (start % (h * s)) disk.sectors) in
    let on_disk : head < h = (div-lt_iff_lt-mul disk.sectors).1 (mod-lt start some_size) in
    let cl = packed sector cylinder (omega arith) inside in
    let dh : u8 head ≡ head = omega arith in
    let back : cylinder_of (u8 cylinder) (sector + cylinder / 256 * 64) ≡ cylinder = omega arith in
    let low : (sector + cylinder / 256 * 64) % 64 ≡ sector = omega arith in
    let from_0 : sector - 1 ≡ start % (h * s) % s = omega arith in
    let some_divisors : ((h * s == 0) || (s == 0)) ≡ false = ground arith in
    rw (ecx, some_divisors, cl, dh)
      (
        _,
        refl,
        rw (back, low, from_0) (three_places start h s),
        on_disk,
        omega arith,
        omega arith,
        omega arith,
      )
