-- ===== src/Vfio/Cleanup.antt =====
-- What `main` gives back.
use mathlib.Core.Path.{subst}
use virt_learn_program.Base.{
  inl, inr, Fault, Outcome, is_zero, is_negative, pos, ◌≡◌, ◌≢◌, ◌↔◌, ◌⊎◌, refl, arith, true, false,
  ℤ, ok, fault, uninitialised,
}
use virt_learn_program.Vfio.{unset, opened, freed, held, Calls, Resources, ends_path, main}

-- The device was found, and the container speaks the right version and IOMMU type.
pub record ReachesGroup (c : Calls) : Type 0 where
  pub known : is_negative c.stat ≡ false
  pub path : ends_path c.readlink ≡ true
  pub number : c.group_scanned ≡ true
  pub version : c.version_matches ≡ true
  pub extension : is_zero c.check_extension ≡ false

-- The group is open and in the container, and the IOMMU type is refused.
pub record RefusesIommu (c : Calls) : Type 0 where
  pub group : is_negative c.open_group ≡ false
  pub viable : c.viable ≡ true
  pub joined : is_zero c.set_container ≡ true
  pub refused : is_zero c.set_iommu ≡ false

-- Nothing is open.
pub record IsClosed (r : Resources) : Type 0 where
  pub container : r.container ≢ opened
  pub group : r.group_fd ≢ opened
  pub device : r.dev_fd ≢ opened

-- A run that ends normally.
pub record Returns (o : Outcome (Resources × ℤ)) : Type 0 where
  pub left : Resources
  pub result : ℤ
  pub returns : o ≡ ok (left, result)

returned_or_fault : (o : Outcome (Resources × ℤ)) → Returns o ⊎ ((f : Fault) × (o ≡ fault f))
returned_or_fault (ok (r, n)) = inl (record { left = r; result = n; returns = refl })
returned_or_fault (fault f) = inr (f, refl)

only_fault : (c : Calls) (f : Fault) → ReachesGroup c → main c ≡ fault f → f ≡ uninitialised
unfolding main
only_fault c f h e = ground arith

-- Once the container is found fit, the program ends normally or closes a descriptor that was never
-- given a value, and there is no other fault; the second exactly when the IOMMU type is refused.
pub main_faults_iff :
    (c : Calls)
    → ReachesGroup c
    → (Returns (main c) ⊎ (main c ≡ fault uninitialised))
      × ((main c ≡ fault uninitialised) ↔ RefusesIommu c)
main_faults_iff c h = (
  elim (returned_or_fault (main c)) [
    | inl r ↦ inl r
    | inr (f, e) ↦ inr (subst (λ (g : Fault). main c ≡ fault g) (only_fault c f h e) e)
  ],
  unfold main in ground arith,
)

-- Once the container is found fit, every normal end leaves no descriptor open and has freed the
-- device structure and its path; the device's name is still held.
pub main_gives_back :
    (c : Calls) (r : Resources) (n : ℤ)
    → ReachesGroup c
    → main c ≡ ok (r, n)
    → IsClosed r × (r.pdev ≡ freed) × (r.sysfsdev ≡ freed) × (r.name ≡ held)
unfolding main
main_gives_back c r n h e = ground arith

-- A container that opens and is then found unfit is left open, with the device structure.
pub main_leaks :
    (c : Calls)
    → is_negative c.stat ≡ false
    → ends_path c.readlink ≡ true
    → c.group_scanned ≡ true
    → is_negative c.open_container ≡ false
    → ((c.version_matches ≡ false) ⊎ (is_zero c.check_extension ≡ true))
    → (r : Resources) × (main c ≡ ok (r, pos 0)) × (r.container ≡ opened) × (r.pdev ≡ held)
unfolding main
main_leaks c known path number fit unfit = (
  record {
    pdev = held;
    sysfsdev = held;
    name = held;
    container = opened;
    group_fd = unset;
    dev_fd = unset;
  },
  ground arith,
  refl,
  refl,
)
