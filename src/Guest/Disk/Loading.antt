-- ===== src/Guest/Disk/Loading.antt =====
-- Loading the whole program.
use native.Mathlib.Nat.{div-lt_iff_lt-mul, mul-pos}
use virt_learn_program.Base.{ℕ, ◌+◌, ◌-◌, ◌*◌, ◌/◌, ◌≤◌, ◌<◌, ◌≡◌, arith}
use virt_learn_program.Guest.Disk.{Parameters, Request, Packet, load_module, sub_word}
use virt_learn_program.Guest.Disk.Address.{IsAddressable}
use virt_learn_program.Guest.Disk.Sectors.{Covers, loop_read-Covers, read_sector_with_chs-Covers}

-- Loading is asked for 33 to 1985 sectors; the disk can be addressed and has them in its first
-- 1024 cylinders; the sector and `eax` before it have no more than 16 bits; there is a round for
-- each 32 sectors. Whatever the firmware answers to the calls, loading ends, and the sectors that
-- its calls ask for are the first ones from sector 1 on, in order, each to 512 times its number
-- above 0x7c00. If the status in `ax` is 0, they are all that it was asked for.
pub load_module-Covers :
    (int13 : Request → ℕ) (g : Parameters) (fuel : ℕ) (p : Packet)
    → IsAddressable g
    → ((r : Request) → int13 r < 256)
    → 33 ≤ p.total_sectors
    → p.total_sectors ≤ 1985
    → p.total_sectors < 1024 * (g.header_maximum * g.sector_maximum)
    → p.start_sector < 65536
    → p.eax < 65536
    → p.total_sectors / 32 ≤ fuel
    → Covers g (load_module int13 g fuel p) p.total_sectors 1 (0x7c00 + 512 * 1)
unfolding load_module
load_module-Covers int13 g fuel p disk answers many few on_disk start small enough =
    let size : 0 < g.header_maximum * g.sector_maximum = mul-pos disk.heads disk.sectors in
    let one : p.start_sector / 65536 * 65536 + 1 ≡ 1 = omega arith in
    let total : sub_word p.total_sectors 1 ≡ p.total_sectors - 1 = omega arith in
    let first : 1 / (g.header_maximum * g.sector_maximum) < 1024 =
      (div-lt_iff_lt-mul size).1 (omega arith) in
    rw (one, total)
      (read_sector_with_chs-Covers int13 g disk
        (record p {
          buffer_offset = 0x7e00;
          buffer_selector = 0;
          read_sectors = 1;
          start_sector = 1;
        })
        _ p.total_sectors 1 (0x7c00 + 512 * 1) answers small first (omega arith) (omega arith)
        (omega arith)
        λ eax h.
          loop_read-Covers int13 g disk answers fuel 1 0x800 2 (p.total_sectors - 1) eax
            (omega arith) (omega arith) (omega arith) (omega arith) (omega arith) size h)
