-- ===== src/Guest/Disk.antt =====
-- asm/pre_run.S: the disk routines of the first sector, over the disk calls of the firmware.
pub mod Address
pub mod Geometry
pub mod Sectors
pub mod Loading
mod Examples
use virt_learn_program.Base.{
  ℕ, zero, suc, ◌+◌, ◌-◌, ◌*◌, ◌/◌, ◌%◌, ◌==◌, ◌||◌, leb, u8, u16, bit_and, bit_or, if◌then◌else◌,
  Bool, true, false, Option, none, some, List, [], ◌∷◌,
}

-- What the routines read of `driver_parameters_table`.
pub record Parameters : Type 0 where
  pub driver_type : ℕ
  pub driver_number : ℕ
  pub cylinder_maximum : ℕ
  pub header_maximum : ℕ
  pub sector_maximum : ℕ

-- The registers that `do_lba_to_chs` leaves: an address in the form of the firmware's calls, and
-- `eax`.
pub record Chs : Type 0 where
  pub ch : ℕ
  pub cl : ℕ
  pub dh : ℕ
  pub eax : ℕ

-- For the `eax` before it, of which the high half stays in the divisor, and the sector; none if it
-- divides by 0.
unfoldable pub do_lba_to_chs : Parameters → ℕ → ℕ → Option Chs
do_lba_to_chs g eax start_sector =
    let ecx = eax / 65536 * 65536 + u16 (g.header_maximum * g.sector_maximum) in
    if ecx == 0 || g.sector_maximum == 0
    then none
    else let ebx = start_sector / ecx in
      let rest = start_sector % ecx in
      let head = rest / g.sector_maximum in
      let sector = rest % g.sector_maximum + 1 in
      some (record {
        ch = u8 ebx;
        cl = bit_or (u8 sector) (u8 (bit_and (u16 ebx / 4) 0xc0));
        dh = u8 head;
        eax = head;
      })

-- What the call of the firmware for the parameters of a disk answers.
pub record Answer : Type 0 where
  pub carry : Bool
  pub ah : ℕ
  pub bl : ℕ
  pub ch : ℕ
  pub cl : ℕ
  pub dh : ℕ

-- A byte stored over the low byte of a word.
abbrev pub low_byte : ℕ → ℕ → ℕ
low_byte word b = word / 256 * 256 + u8 b

-- With the value of `ax` at the end.
unfoldable pub get_driver_parameters : Answer → Parameters → Parameters × ℕ
get_driver_parameters a g = if a.carry then (g, a.ah) else (
  record g {
    driver_type = a.bl;
    header_maximum = low_byte g.header_maximum (a.dh + 1);
    sector_maximum = bit_and (low_byte g.sector_maximum a.cl) 0x3f;
    cylinder_maximum = u16 (bit_and (a.cl / 64 * 256 + a.ch) 0x3ff + 1);
  },
  a.ah,
)

-- A call of the firmware to read sectors, with its registers.
pub record Request : Type 0 where
  pub al : ℕ
  pub ch : ℕ
  pub cl : ℕ
  pub dh : ℕ
  pub dl : ℕ
  pub es : ℕ
  pub bx : ℕ

-- `disk_address_packet`, and `eax`.
pub record Packet : Type 0 where
  pub read_sectors : ℕ
  pub buffer_offset : ℕ
  pub buffer_selector : ℕ
  pub start_sector : ℕ
  pub total_sectors : ℕ
  pub eax : ℕ

-- The `eax` after a call that answered with a status in `ah`.
abbrev pub with_status : ℕ → ℕ → ℕ
with_status eax status = eax / 65536 * 65536 + status

-- How loading ends: with `ax` and the calls so far, by dividing by 0, or without rounds to spend.
pub data Load : Type 0 where
  finished : ℕ → List Request → Load
  divide_error out_of_rounds : Load

abbrev pub preceded : Request → Load → Load
preceded r (finished ax rs) = finished ax (r ∷ rs)
preceded r divide_error = divide_error
preceded r out_of_rounds = out_of_rounds

-- A word added to the low word of a number of 32 bits, and taken from it.
abbrev pub add_word : ℕ → ℕ → ℕ
add_word v n = v / 65536 * 65536 + u16 (v + n)

abbrev pub sub_word : ℕ → ℕ → ℕ
sub_word v n = add_word v (65536 - n)

-- `read_sector_with_chs`, and what follows if its status is 0.
module _ (int13 : Request → ℕ) (g : Parameters) where
  abbrev pub request : Packet → Chs → Request
  request p c = record {
    al = u8 p.read_sectors;
    ch = c.ch;
    cl = c.cl;
    dh = c.dh;
    dl = g.driver_number;
    es = p.buffer_selector;
    bx = p.buffer_offset;
  }

  abbrev pub called : Packet → Option Chs → (ℕ → Load) → Load
  called p none next = divide_error
  called p (some c) next =
      let r = request p c in
      let status = int13 r in
      preceded r (if status == 0 then next (with_status c.eax status) else finished status [])

  unfoldable pub read_sector_with_chs : Packet → (ℕ → Load) → Load
  read_sector_with_chs p next = called p (do_lba_to_chs g p.eax p.start_sector) next

  -- The last sectors, fewer than 32.
  unfoldable pub read_last : Packet → Load
  read_last p =
      read_sector_with_chs (record p { read_sectors = u16 p.total_sectors }) λ eax. finished 0 []

  -- `loop_read`, with rounds to spend.
  unfoldable pub loop_read : ℕ → Packet → Load
  loop_read zero p = out_of_rounds
  loop_read (suc fuel) p =
      let p1 = record p { read_sectors = 0x20 } in
      read_sector_with_chs p1 λ eax.
        let p2 = record p1 {
          start_sector = add_word p.start_sector 0x20;
          buffer_selector = u16 (p.buffer_selector + 0x400);
          total_sectors = sub_word p.total_sectors 0x20;
          eax = eax;
        } in
        let rest = loop_read fuel p2 in
        if u16 p2.total_sectors == 0
        then finished 0 []
        else if leb 0x20 p2.total_sectors
        then rest
        else read_last p2

  -- `add` and `sub` without a size are of a word, as the code is of 16 bits.
  unfoldable pub load_module : ℕ → Packet → Load
  load_module fuel p =
      let p1 = record p {
        buffer_offset = 0x7e00;
        buffer_selector = 0;
        read_sectors = 1;
        start_sector = p.start_sector / 65536 * 65536 + 1;
      } in
      read_sector_with_chs p1 λ eax. loop_read fuel (record p1 {
        start_sector = add_word p1.start_sector 1;
        total_sectors = sub_word p.total_sectors 1;
        buffer_selector = 0x800;
        buffer_offset = 0;
        eax = eax;
      })
