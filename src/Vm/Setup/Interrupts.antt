-- ===== src/Vm/Setup/Interrupts.antt =====
-- vm.c: how `main` routes the interrupt that an event file raises. What the kernel makes of a routing
-- table is an interface.
use virt_learn_program.Base.{
  is_zero, is_negative, ℕ, ◌*◌, ◌/◌, ◌%◌, ◌^◌, ◌≡◌, ◌≢◌, bit_or, true, if◌then◌else◌, Option, none,
  some, ℤ, List, [], ◌∷◌, refl, Bool-cases, inl, inr,
}
use virt_learn_program.Vm.Setup.{
  KvmState, kvm_init, fresh, MainCalls, is_minus_one, is_positive, setup, looping,
}
use virt_learn_program.Vm.Setup.Start.{setup_looping_iff}

abbrev pub virq : ℕ
virq = 0x48

-- `struct kvm_irq_routing_entry` of type KVM_IRQ_ROUTING_MSI.
pub record Route : Type 0 where
  pub gsi : ℕ
  pub flags : ℕ
  pub address_lo : ℕ
  pub address_hi : ℕ
  pub message : ℕ  -- u.msi.data

unfoldable pub irq_route : Route
irq_route = record {
  gsi = virq;
  flags = 0;
  address_lo = bit_or 0xfee00000 (0xff * 2 ^ 12);
  address_hi = 0;
  message = 0x30;
}

-- `struct kvm_irqfd`; a file without a value is `none`.
pub record Irqfd : Type 0 where
  pub fd : Option ℤ
  pub gsi : ℕ
  pub flags : ℕ

-- The struct that `set_ioeventfd_mmio` registers.
unfoldable pub irqfd_of : KvmState → Irqfd
irqfd_of ks = record { fd = ks.irqefd; gsi = virq; flags = 0 }

-- What the kernel has been told of interrupts.
pub record Interrupts : Type 0 where
  pub routes : List Route
  pub irqfds : List Irqfd

-- The two calls of `main` that tell it; one that fails changes nothing.
unfoldable pub route_interrupts : MainCalls → Interrupts
unfolding irq_route irqfd_of
route_interrupts c = record {
  routes = if is_zero c.gsi_routing then irq_route ∷ [] else [];
  irqfds = if is_negative c.irqfd then [] else irqfd_of (kvm_init c.init fresh).0 ∷ [];
}

-- The kernel's lookup of an interrupt in its table: nothing in an empty table, and a route for the
-- number if it is the table's only one.
pub record Lookup : Type 0 where
  pub lookup : List Route → ℕ → Option Route
  pub lookup-empty : (g : ℕ) → lookup [] g ≡ none
  pub lookup-only : (r : Route) → lookup (r ∷ []) r.gsi ≡ some r

-- If a failing `open` and a failing registration leave an error number, the interrupt's event file has
-- a positive descriptor and the set-up reaches the exit loop, then that event file is the one that
-- raises interrupts, and the kernel finds a route for its interrupt exactly if the routing succeeded,
-- which the set-up does not look at: vector 0x30 for all processors, in the range of message-signalled
-- interrupts.
pub route_interrupts-delivers :
    (k : Lookup) (c : MainCalls)
    → (is_minus_one c.init.open_kvm ≡ true → c.init.errno ≢ 0)
    → (is_negative c.irqfd ≡ true → c.irqfd_errno ≢ 0)
    → is_positive c.init.eventfd_irq ≡ true
    → setup c ≡ looping
    → let i = route_interrupts c in
      (f : Irqfd) × (r : Route) × (i.irqfds ≡ f ∷ [])
      × (f.fd ≡ some c.init.eventfd_irq)
      × (k.lookup i.routes f.gsi ≡ (if is_zero c.gsi_routing then some r else none))
      × (r.address_lo / 2 ^ 20 ≡ 0xfee)
      × (r.address_lo / 2 ^ 12 % 256 ≡ 0xff)
      × (r.message % 256 ≡ 0x30)
unfolding route_interrupts irqfd_of irq_route
route_interrupts-delivers k c open_errors irq_errors positive runs =
    let ready = (setup_looping_iff c open_errors irq_errors).0 runs in
    (
      irqfd_of (kvm_init c.init fresh).0,
      irq_route,
      rw (ready.interrupt) refl,
      unfold kvm_init in rw (ready.opened, ready.version, positive) refl,
      elim (Bool-cases (is_zero c.gsi_routing)) [
        | inl routed ↦ rw routed (unfold irq_route in k.lookup-only irq_route)
        | inr failed ↦ rw failed (k.lookup-empty virq)
      ],
      refl,
      refl,
      refl,
    )
