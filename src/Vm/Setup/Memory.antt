-- ===== src/Vm/Setup/Memory.antt =====
-- vm.c: the guest's physical memory, and where the program is put and starts.
use virt_learn_program.Base.{◌≢◌, ℕ, ◌+◌, ◌≤◌, ◌<◌, ◌≡◌, ◌⊎◌, arith}
use virt_learn_program.Vm.Exits.{text_base, text_last, doorbell}

-- `struct kvm_userspace_memory_region`, less its flags; the user address is an argument.
pub record Region : Type 0 where
  pub slot : ℕ
  pub guest_phys_addr : ℕ
  pub memory_size : ℕ
  pub userspace_addr : ℕ

unfoldable pub region1 : ℕ → Region
region1 mem1 = record {
  slot = 0;
  guest_phys_addr = 0x7000;
  memory_size = 0x80000;
  userspace_addr = mem1;
}

unfoldable pub region2 : ℕ → Region
region2 mem2 = record {
  slot = 2;
  guest_phys_addr = 0x100000;
  memory_size = 0x4000000;
  userspace_addr = mem2;
}

-- The registers that `KVM_SET_REGS` starts the guest with.
pub record StartRegs : Type 0 where
  pub rip : ℕ
  pub rax : ℕ
  pub rbx : ℕ
  pub rflags : ℕ

unfoldable pub start_regs : StartRegs
start_regs = record { rip = 0x7c00; rax = 2; rbx = 2; rflags = 0x82 }

-- Where `main` reads the program to.
unfoldable pub load_address : ℕ → ℕ
load_address mem1 = mem1 + 0xc00

-- A guest address that a region backs, and the user address behind it.
abbrev pub IsBacked : Region → ℕ → Type 0
IsBacked r a = (r.guest_phys_addr ≤ a) × (a < r.guest_phys_addr + r.memory_size)

-- No address of the text screen or of the doorbell is backed, so each access there comes out as an
-- exit; and no address is backed twice.
pub regions_apart :
    (mem1 mem2 a : ℕ)
    → (IsBacked (region1 mem1) a ⊎ IsBacked (region2 mem2) a)
    → (¬ ((text_base ≤ a) × (a ≤ text_last)))
      × (a ≢ doorbell)
      × (¬ (IsBacked (region1 mem1) a × IsBacked (region2 mem2) a))
unfolding region1 region2
regions_apart mem1 mem2 a h = ground arith

-- The guest starts at the first byte that was read: the user address behind its instruction
-- pointer is the load address. A program of up to 0x7f400 bytes is backed whole.
pub starts_at_program :
    (mem1 n : ℕ)
    → n < 0x7f400
    → let r = region1 mem1 in
      (r.userspace_addr + start_regs.rip ≡ load_address mem1 + r.guest_phys_addr)
      × IsBacked r (start_regs.rip + n)
unfolding region1 start_regs load_address
starts_at_program mem1 n h = omega arith
