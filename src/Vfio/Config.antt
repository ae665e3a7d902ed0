-- ===== src/Vfio/Config.antt =====
-- vfio.c: what the program reads of a device and prints, from `device_info` to `print_pci`.
use virt_learn_program.Base.{
  is_zero, is_negative, ℕ, ◌+◌, ◌*◌, ◌/◌, ◌%◌, ◌<◌, not, if◌then◌else◌, none, some, ℤ, pos, List,
  [], ◌∷◌, ◌++◌, length, drop, replicate, get_elem?, ◌≡◌, refl, arith,
}

-- `struct pci_config`.
pub record PciConfig : Type 0 where
  pub vendor_id : ℕ
  pub device_id : ℕ
  pub command : ℕ
  pub status : ℕ
  pub revision_id : ℕ
  pub class_code : ℕ

abbrev byte : List ℕ → ℕ → ℕ
byte bytes i = elim (get_elem? bytes i) [ none ↦ 0 | some b ↦ b ]

abbrev half : List ℕ → ℕ → ℕ
half bytes i = byte bytes i + 256 * byte bytes (i + 1)

-- A pointer to the bytes taken as a pointer to the packed structure, on a little-endian machine. The
-- low 8 bits of the last word are the first bit-field.
unfoldable pub as_pci_config : List ℕ → PciConfig
as_pci_config bytes =
    let word = half bytes 8 + 65536 * half bytes 10 in
    record {
      vendor_id = half bytes 0;
      device_id = half bytes 2;
      command = half bytes 4;
      status = half bytes 6;
      revision_id = word % 256;
      class_code = word / 256;
    }

-- `print_pci`: a row for each line.
unfoldable pub print_pci : List ℕ → List (List ℕ)
unfolding as_pci_config
print_pci bytes =
    let c = as_pci_config bytes in
    (c.vendor_id ∷ c.device_id ∷ [])
    ∷ (c.command ∷ c.status ∷ [])
    ∷ (c.class_code ∷ c.revision_id ∷ [])
    ∷ []

-- The results of the calls from the device's descriptor on, and what they fill in. `received` is what
-- `pread` puts in the array, by the offset that it is called with.
pub record DeviceCalls : Type 0 where
  pub get_info : ℤ
  pub num_regions : ℕ
  pub num_irqs : ℕ
  pub get_region_info : ℤ
  pub region_flags : ℕ
  pub region_argsz : ℕ
  pub region_offset : ℕ
  pub info_size : ℕ  -- sizeof(struct vfio_region_info)
  pub config_index : ℕ  -- VFIO_PCI_CONFIG_REGION_INDEX
  pub received : ℕ → List ℕ
  pub pread : ℤ

-- `struct vfio_region_info`: flags, size and offset, unchanged by a call that fails.
abbrev region_info : DeviceCalls → ℕ × ℕ × ℕ
region_info c =
    if is_zero c.get_region_info
    then (c.region_flags, c.region_argsz, c.region_offset)
    else (0, c.info_size, 0)

-- `conf_data` after `pread`.
abbrev filled : List ℕ → List ℕ → List ℕ
filled conf_data received = received ++ drop (length received) conf_data

-- The rows that `main` prints once it has the device's descriptor.
unfoldable pub report : DeviceCalls → List (List ℕ)
unfolding print_pci
report c =
    let (flags, argsz, offset) = region_info c in
    let zeros = replicate 512 0 in
    let conf_data = if is_negative c.pread then zeros else filled zeros (c.received offset) in
    if not (is_zero c.get_info)
    then []
    else (c.num_regions ∷ c.num_irqs ∷ [])
      ∷ (c.info_size ∷ c.config_index ∷ [])
      ∷ (flags ∷ argsz ∷ offset ∷ [])
      ∷ print_pci conf_data

-- A header as the bytes that a device has it in.
abbrev pub halves : ℕ → List ℕ → List ℕ
halves n rest = n % 256 ∷ n / 256 % 256 ∷ rest

abbrev pub encode : PciConfig → List ℕ → List ℕ
encode h rest = halves h.vendor_id (
    halves h.device_id (
      halves h.command (
        halves h.status (
          h.revision_id
          ∷ h.class_code % 256
          ∷ h.class_code / 256 % 256
          ∷ h.class_code / 65536
          ∷ rest))))

pub record Fits (h : PciConfig) : Type 0 where
  pub vendor_id : h.vendor_id < 65536
  pub device_id : h.device_id < 65536
  pub command : h.command < 65536
  pub status : h.status < 65536
  pub revision_id : h.revision_id < 256
  pub class_code : h.class_code < 16777216

half_back : (v : ℕ) → v < 65536 → v % 256 + 256 * (v / 256 % 256) ≡ v
half_back v h = omega arith

word_back :
    (r v : ℕ)
    → v < 16777216
    → r + 256 * (v % 256) + 65536 * (v / 256 % 256 + 256 * (v / 65536)) ≡ r + 256 * v
word_back r v h = omega arith

class_back : (r v : ℕ) → r < 256 → (r + 256 * v) / 256 ≡ v
class_back r v h = omega arith

revision_back : (r v : ℕ) → r < 256 → (r + 256 * v) % 256 ≡ r
revision_back r v h = omega arith

-- If all calls succeed and the bytes read at the region's offset begin with the header `h`, whose
-- fields fit their widths, then the last rows printed are the fields of `h`.
pub report-header :
    (c : DeviceCalls) (h : PciConfig) (rest : List ℕ) (n : ℕ)
    → Fits h
    → c.get_info ≡ pos 0
    → c.get_region_info ≡ pos 0
    → c.pread ≡ pos n
    → c.received c.region_offset ≡ encode h rest
    → report c
      ≡ (c.num_regions ∷ c.num_irqs ∷ [])
        ∷ (c.info_size ∷ c.config_index ∷ [])
        ∷ (c.region_flags ∷ c.region_argsz ∷ c.region_offset ∷ [])
        ∷ (h.vendor_id ∷ h.device_id ∷ [])
        ∷ (h.command ∷ h.status ∷ [])
        ∷ (h.class_code ∷ h.revision_id ∷ [])
        ∷ []
unfolding report print_pci as_pci_config
report-header c h rest n fits info region ended bytes =
    rw
      (
        info,
        region,
        ended,
        bytes,
        half_back h.vendor_id fits.vendor_id,
        half_back h.device_id fits.device_id,
        half_back h.command fits.command,
        half_back h.status fits.status,
        word_back h.revision_id h.class_code fits.class_code,
        class_back h.revision_id h.class_code fits.revision_id,
        revision_back h.revision_id h.class_code fits.revision_id,
      )
      refl
