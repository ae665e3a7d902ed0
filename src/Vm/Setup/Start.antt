-- ===== src/Vm/Setup/Start.antt =====
-- What the set-up needs in order to reach the loop.
use virt_learn_program.Base.{
  is_zero, is_negative, refl, List, [], ◌∷◌, ℤ, ℕ, Bool, ◌≡◌, ◌≢◌, ◌↔◌, arith, true, false, ltb,
}
use virt_learn_program.Vm.Setup.{
  first_failing, checks, looping, setup, set_ioeventfd_mmio, InitCalls, MainCalls, is_minus_one,
  is_version, kvm_init, fresh, as_size,
}

-- The calls whose results `main` acts on have succeeded.
pub record IsReady (c : MainCalls) : Type 0 where
  pub parsed : is_zero c.parse ≡ true
  pub opened : is_minus_one c.init.open_kvm ≡ false
  pub version : is_version c.init.api_version ≡ true
  pub event_file : is_negative c.init.eventfd_irq ≡ false
  pub file_opened : is_minus_one c.open_file ≡ false
  pub file_known : is_zero c.fstat ≡ true
  pub created : is_minus_one c.create_vm ≡ false
  pub loaded : is_negative c.read_file ≡ false
  pub low_memory : is_minus_one c.set_region1 ≡ false
  pub high_memory : is_minus_one c.set_region2 ≡ false
  pub processor : is_minus_one c.create_vcpu ≡ false
  pub run_area : ltb (as_size c.mmap_size) c.kvm_run_size ≡ false
  pub interrupt : is_negative c.irqfd ≡ false
  pub sregs_read : is_minus_one c.get_sregs ≡ false
  pub sregs_set : is_minus_one c.set_sregs ≡ false
  pub regs_set : is_minus_one c.set_regs ≡ false

kvm_init_zero :
    (c : InitCalls)
    → (is_minus_one c.open_kvm ≡ true → c.errno ≢ 0)
    → (is_zero (kvm_init c fresh).1 ≡ true) ↔ (
        (is_minus_one c.open_kvm ≡ false)
        × (is_version c.api_version ≡ true)
        × (is_negative c.eventfd_irq ≡ false))
unfolding kvm_init
kvm_init_zero c errors = ground arith

interrupt_negative :
    (r : ℤ) (errno : ℕ)
    → (is_negative r ≡ true → errno ≢ 0)
    → is_negative (set_ioeventfd_mmio r errno) ≡ is_negative r
unfolding set_ioeventfd_mmio
interrupt_negative r errno errors = ground arith

abbrev AllPass : List (Bool × ℕ) → Type 0
AllPass [] = Unit
AllPass ((failed, status) ∷ cs) = (failed ≡ false) × AllPass cs

first_failing-looping : (cs : List (Bool × ℕ)) → first_failing cs ≡ looping → AllPass cs
first_failing-looping [] h = tt
first_failing-looping ((true, status) ∷ cs) h = cc
first_failing-looping ((false, status) ∷ cs) h = (refl, first_failing-looping cs h)

AllPass-looping : (cs : List (Bool × ℕ)) → AllPass cs → first_failing cs ≡ looping
AllPass-looping [] h = refl
AllPass-looping ((failed, status) ∷ cs) h = rw (h.0) (AllPass-looping cs h.1)

-- If a failing `open` and a failing registration leave an error number, then the set-up reaches the
-- exit loop exactly when every call that it acts on has succeeded. The first event file, the
-- interrupt routing, the interrupt controller and the processor identification may all have failed.
pub setup_looping_iff :
    (c : MainCalls)
    → (is_minus_one c.init.open_kvm ≡ true → c.init.errno ≢ 0)
    → (is_negative c.irqfd ≡ true → c.irqfd_errno ≢ 0)
    → (setup c ≡ looping) ↔ IsReady c
unfolding setup checks
setup_looping_iff c open_errors irq_errors =
    let init = kvm_init_zero c.init open_errors in
    let irq = interrupt_negative c.irqfd c.irqfd_errno irq_errors in
    (
      λ h.
          let p : AllPass (checks c) = first_failing-looping (checks c) h in
          ground (arith, init, irq),
      λ ready. AllPass-looping (checks c) (ground (arith, init, irq)),
    )
