-- ===== src/Vfio.antt =====
-- vfio.c: opening a PCI device through its IOMMU group, and giving back what was opened.
mod Examples
pub mod Cleanup
pub mod Config
use virt_learn_program.Base.{
  is_zero, is_negative, ℕ, zero, suc, Bool, true, false, not, ltb, ◌==◌, if◌then◌else◌, ℤ, pos,
  negsuc, Outcome, ok, fault, out_of_bounds, uninitialised, double_free, use_after_free, ◌>>=◌,
}

-- A file descriptor's variable: without a value, with that of a failed call, open, or closed.
pub data Fd : Type 0 where
  unset absent opened closed : Fd

-- A pointer's memory: not allocated, held, or freed.
pub data Memory : Type 0 where
  unallocated held freed : Memory

-- What `main` and `init_pci_data` hold.
pub record Resources : Type 0 where
  pub pdev : Memory
  pub sysfsdev : Memory
  pub name : Memory
  pub container : Fd
  pub group_fd : Fd
  pub dev_fd : Fd

-- The results of the calls, in their order. `readlink` is a length or -1, and `group_scanned` says
-- whether `sscanf` finds the group's number.
pub record Calls : Type 0 where
  pub stat : ℤ
  pub readlink : ℤ
  pub group_scanned : Bool
  pub open_container : ℤ
  pub version_matches : Bool
  pub check_extension : ℤ
  pub open_group : ℤ
  pub viable : Bool
  pub set_container : ℤ
  pub set_iommu : ℤ
  pub get_device_fd : ℤ
  pub get_info : ℤ

abbrev pub fd_of : ℤ → Fd
fd_of r = if is_negative r then absent else opened

-- `close`; closing the value of a failed call does nothing.
abbrev pub close : Fd → Outcome Fd
close unset = fault uninitialised
close absent = ok absent
close opened = ok closed
close closed = fault double_free

abbrev pub free : Memory → Outcome Memory
free unallocated = ok unallocated
free held = ok freed
free freed = fault double_free

-- `group_path[len] = 0` in an array of 512 characters.
abbrev pub ends_path : ℤ → Bool
ends_path (pos len) = ltb len 512
ends_path _ = false

-- `init_pci_data`: what is held, and whether it returns 0.
unfoldable pub init_pci_data : Calls → Resources → Outcome (Resources × Bool)
init_pci_data c r =
    let r1 = record r { sysfsdev = held } in
    let r2 = record r1 { name = held } in
    if is_negative c.stat
    then ok (r1, false)
    else if not (ends_path c.readlink)
    then fault out_of_bounds
    else if not c.group_scanned
    then ok (r2, false)
    else ok (r2, true)

-- The labels at the end of `main`, each falling through to the next.
unfoldable pub at_err : Resources → Outcome (Resources × ℤ)
at_err r = do
  fd ← close r.container
  s ← free r.sysfsdev
  p ← free r.pdev
  ok (record r { container = fd; sysfsdev = s; pdev = p }, pos 0)

unfoldable pub at_err0 : Resources → Outcome (Resources × ℤ)
unfolding at_err
at_err0 r = do fd ← close r.group_fd; at_err (record r { group_fd = fd })

unfoldable pub at_err1 : Resources → Outcome (Resources × ℤ)
unfolding at_err0
at_err1 r = do fd ← close r.dev_fd; at_err0 (record r { dev_fd = fd })

-- `main` from the opening of the group on.
unfoldable pub use_group : Calls → Resources → Outcome (Resources × ℤ)
unfolding at_err1
use_group c r =
    let r1 = record r { group_fd = fd_of c.open_group } in
    let r2 = record r1 { dev_fd = fd_of c.get_device_fd } in
    if is_negative c.open_group
    then at_err r1
    else if not c.viable
    then at_err0 r1
    else if not (is_zero c.set_container)
    then at_err0 r1
    else if not (is_zero c.set_iommu)
    then at_err1 r1
    else if is_negative c.get_device_fd
    then at_err0 r2
    else if not (is_zero c.get_info)
    then at_err1 r2
    else at_err1 r2

-- `main` from the opening of the container on.
unfoldable pub use_container : Calls → Resources → Outcome (Resources × ℤ)
unfolding use_group
use_container c r =
    let r1 = record r { container = fd_of c.open_container } in
    if not c.version_matches
    then ok (r1, pos 0)
    else if is_zero c.check_extension
    then ok (r1, pos 0)
    else use_group c r1

abbrev pub at_start : Resources
at_start = record {
  pdev = held;
  sysfsdev = unallocated;
  name = unallocated;
  container = unset;
  group_fd = unset;
  dev_fd = unset;
}

unfoldable pub main : Calls → Outcome (Resources × ℤ)
unfolding init_pci_data use_container
main c = do
  (r, found) ← init_pci_data c at_start
  if found then use_container c r else ok (r, negsuc 0)
