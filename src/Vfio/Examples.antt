-- ===== src/Vfio/Examples.antt =====
-- The IOMMU group program on concrete results of its calls.
use virt_learn_program.Base.{
  ◌==◌, [], ◌∷◌, if◌then◌else◌, arith, refl, ◌⊎◌, ◌↔◌, uninitialised, inl, ok, fault, ◌≡◌, true,
  negsuc, false, pos,
}
use virt_learn_program.Vfio.{Calls, Resources, main, freed, closed, opened, held}
use virt_learn_program.Vfio.Config.{
  PciConfig, DeviceCalls, Fits, encode, report, print_pci, as_pci_config, report-header,
}
use virt_learn_program.Vfio.Cleanup.{
  ReachesGroup, RefusesIommu, IsClosed, Returns, main_faults_iff, main_gives_back, main_leaks,
}

-- Every call succeeds.
abbrev calls : Calls
calls = record {
  stat = pos 0;
  readlink = pos 40;
  group_scanned = true;
  open_container = pos 3;
  version_matches = true;
  check_extension = pos 1;
  open_group = pos 4;
  viable = true;
  set_container = pos 0;
  set_iommu = pos 0;
  get_device_fd = pos 5;
  get_info = pos 0;
}

-- The IOMMU type is refused.
abbrev refused_calls : Calls
refused_calls = record calls { set_iommu = negsuc 0 }

-- The container speaks another version.
abbrev old_calls : Calls
old_calls = record calls { version_matches = false }

reaches : ReachesGroup calls
reaches = record { known = refl; path = refl; number = refl; version = refl; extension = refl }

refused_reaches : ReachesGroup refused_calls
refused_reaches = record {
  known = refl;
  path = refl;
  number = refl;
  version = refl;
  extension = refl;
}

main_faults_iff_example :
    (Returns (main refused_calls) ⊎ (main refused_calls ≡ fault uninitialised))
    × ((main refused_calls ≡ fault uninitialised) ↔ RefusesIommu refused_calls)
main_faults_iff_example = main_faults_iff refused_calls refused_reaches

abbrev at_end : Resources
at_end = record {
  pdev = freed;
  sysfsdev = freed;
  name = held;
  container = closed;
  group_fd = closed;
  dev_fd = closed;
}

main_ends : main calls ≡ ok (at_end, pos 0)
unfolding main
main_ends = refl

main_gives_back_example :
    IsClosed at_end × (at_end.pdev ≡ freed) × (at_end.sysfsdev ≡ freed) × (at_end.name ≡ held)
main_gives_back_example = main_gives_back calls at_end (pos 0) reaches main_ends

old_leaks :
    (r : Resources) × (main old_calls ≡ ok (r, pos 0)) × (r.container ≡ opened) × (r.pdev ≡ held)
old_leaks = main_leaks old_calls refl refl refl refl (inl refl)

-- A network card, whose configuration space has its header and no more.
abbrev card : PciConfig
card = record {
  vendor_id = 0x8086;
  device_id = 0x100e;
  command = 7;
  status = 0x230;
  revision_id = 2;
  class_code = 0x20000;
}

card-Fits : Fits card
card-Fits = record {
  vendor_id = omega arith;
  device_id = omega arith;
  command = omega arith;
  status = omega arith;
  revision_id = omega arith;
  class_code = omega arith;
}

abbrev card_calls : DeviceCalls
card_calls = record {
  get_info = pos 0;
  num_regions = 9;
  num_irqs = 5;
  get_region_info = pos 0;
  region_flags = 3;
  region_argsz = 32;
  region_offset = 0x7000;
  info_size = 32;
  config_index = 7;
  received = λ offset. if offset == 0x7000 then encode card [] else [];
  pread = pos 12;
}

report-header_example :
    report card_calls
    ≡ (9 ∷ 5 ∷ [])
      ∷ (32 ∷ 7 ∷ [])
      ∷ (3 ∷ 32 ∷ 0x7000 ∷ [])
      ∷ (0x8086 ∷ 0x100e ∷ [])
      ∷ (7 ∷ 0x230 ∷ [])
      ∷ (0x20000 ∷ 2 ∷ [])
      ∷ []
report-header_example = report-header card_calls card [] 12 card-Fits refl refl refl refl

-- A failing query for the region is not acted on: the program reads at offset 0.
wrong_region :
    report (record card_calls { get_region_info = negsuc 0; received = λ offset. offset ∷ [] })
    ≡ (9 ∷ 5 ∷ [])
      ∷ (32 ∷ 7 ∷ [])
      ∷ (0 ∷ 32 ∷ 0 ∷ [])
      ∷ (0 ∷ 0 ∷ [])
      ∷ (0 ∷ 0 ∷ [])
      ∷ (0 ∷ 0 ∷ [])
      ∷ []
unfolding report print_pci as_pci_config
wrong_region = refl
