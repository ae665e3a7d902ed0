-- ===== src/Guest/Disk/Examples.antt =====
-- Loading from a small disk.
use virt_learn_program.Base.{
  ◌==◌, if◌then◌else◌, ℕ, ◌≡◌, ◌<◌, ◌≤◌, ◌+◌, ◌%◌, ◌⊎◌, some, none, false, refl, arith,
}
use virt_learn_program.Guest.Disk.{
  Parameters, Chs, Answer, Request, Packet, do_lba_to_chs, get_driver_parameters, load_module,
  loop_read, read_sector_with_chs, out_of_rounds,
}
use virt_learn_program.Guest.Disk.Address.{sector_at}
use virt_learn_program.Guest.Disk.Geometry.{get_driver_parameters-sector_at}
use virt_learn_program.Guest.Disk.Sectors.{Covers}
use virt_learn_program.Guest.Disk.Loading.{load_module-Covers}

-- 1024 cylinders, 16 heads, 63 sectors.
abbrev answer : Answer
answer = record { carry = false; ah = 0; bl = 0; ch = 0xff; cl = 0xff; dh = 15 }

abbrev unknown : Parameters
unknown = record {
  driver_type = 0;
  driver_number = 0x80;
  cylinder_maximum = 0;
  header_maximum = 0;
  sector_maximum = 0;
}

abbrev known : Parameters
known = record unknown { header_maximum = 16; sector_maximum = 63 }

get_driver_parameters-known :
    get_driver_parameters answer unknown ≡ (record known { cylinder_maximum = 1024 }, 0)
unfolding get_driver_parameters
get_driver_parameters-known = refl

get_driver_parameters-sector_at_example :
    let g' = (get_driver_parameters answer unknown).0 in
    ((16 < 256)
      × (c : Chs) × (do_lba_to_chs g' 0x1ff 500000 ≡ some c)
      × (sector_at 16 63 c.ch c.cl c.dh ≡ 500000)
      × (c.dh < 16)
      × (0 < c.cl % 64)
      × (c.cl % 64 ≤ 63))
    ⊎ ((answer.dh + 1 ≡ 256) × (do_lba_to_chs g' 0x1ff 500000 ≡ none))
get_driver_parameters-sector_at_example =
    get_driver_parameters-sector_at answer unknown 1024 16 63 0x1ff 500000
      (record {
        good = refl;
        bytes = (omega arith, omega arith, omega arith);
        last_cylinder = refl;
        last_head = refl;
        last_sector = refl;
      })
      (record { heads = omega arith; sectors = omega arith }) (omega arith) (omega arith)

abbrev wanted : ℕ → Packet
wanted total = record {
  read_sectors = 0;
  buffer_offset = 0;
  buffer_selector = 0;
  start_sector = 0;
  total_sectors = total;
  eax = 0;
}

-- A firmware that fails for the sectors from 64 on, those of the heads above the first.
abbrev int13 : Request → ℕ
int13 r = if r.dh == 0 then 0 else 4

int13-status : (r : Request) → int13 r < 256
int13-status r = ground arith

load_module-Covers_example : Covers known (load_module int13 known 2 (wanted 75)) 75 1 0x7e00
load_module-Covers_example =
    load_module-Covers int13 known 2 (wanted 75)
      (record {
        heads = omega arith;
        few_heads = omega arith;
        sectors = omega arith;
        few_sectors = omega arith;
      })
      int13-status (omega arith) (omega arith) (omega arith) (omega arith) (omega arith)
      (omega arith)

-- Asked for 32 sectors, it does not stop after them: the count goes below 0.
load_module-small : load_module (λ r. 0) known 2 (wanted 32) ≡ out_of_rounds
unfolding load_module loop_read read_sector_with_chs do_lba_to_chs
load_module-small = refl
