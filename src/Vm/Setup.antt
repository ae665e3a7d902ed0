-- ===== src/Vm/Setup.antt =====
-- vm.c: how `main` sets the machine up, and what each failing call does to it. The results of the
-- system calls are given.
pub mod Memory
pub mod Start
pub mod Interrupts
use virt_learn_program.Base.{
  is_zero, is_negative, [], ◌∷◌, List, ℕ, zero, suc, ◌+◌, ◌-◌, Bool, true, false, ◌&&◌, ◌||◌, not,
  ltb, leb, ◌==◌, if◌then◌else◌, Option, none, some, ℤ, pos, neg, negsuc, einval, u64,
}

abbrev pub is_minus_one : ℤ → Bool
is_minus_one (negsuc zero) = true
is_minus_one _ = false

abbrev pub is_positive : ℤ → Bool
is_positive (pos n) = not (n == 0)
is_positive _ = false

abbrev pub is_version : ℤ → Bool
is_version (pos n) = n == 12
is_version _ = false

-- The fields of `struct KVMState` that `kvm_init` sets; `none` is a field without a value.
pub record KvmState : Type 0 where
  pub fd : Option ℤ
  pub ioefd : Option ℤ
  pub irqefd : Option ℤ

-- The results of the calls of `kvm_init`; `errno` is the error number that a failed `open` leaves.
pub record InitCalls : Type 0 where
  pub open_kvm : ℤ
  pub errno : ℕ
  pub api_version : ℤ
  pub eventfd_io : ℤ
  pub eventfd_irq : ℤ

-- A result of `eventfd`: what goes into the field, and what `ret` holds then.
abbrev pub keep_fd : ℤ → Option ℤ → Option ℤ
keep_fd r old = if is_positive r then some r else old

abbrev pub ret_of : ℤ → ℤ
ret_of r = if is_positive r then pos 0 else r

-- `kvm_init`: the state, and its result.
unfoldable pub kvm_init : InitCalls → KvmState → KvmState × ℤ
kvm_init c s =
    let s1 = record s { fd = some c.open_kvm } in
    if is_minus_one c.open_kvm
    then (s1, neg c.errno)
    else if not (is_version c.api_version)
    then (s1, neg einval)
    else (
      record s1 { ioefd = keep_fd c.eventfd_io s.ioefd; irqefd = keep_fd c.eventfd_irq s.irqefd },
      ret_of c.eventfd_irq,
    )

-- The results of the other calls, in the order of `main`. `parse` is the result of `parse_argv`,
-- `cpuid` of `vm_init_cpuid`, and `irqfd` of the call in `set_ioeventfd_mmio`.
pub record MainCalls : Type 0 where
  pub parse : ℤ
  pub init : InitCalls
  pub open_file : ℤ
  pub fstat : ℤ
  pub create_vm : ℤ
  pub read_file : ℤ
  pub set_region1 : ℤ
  pub set_region2 : ℤ
  pub enable_cap : ℤ
  pub gsi_routing : ℤ
  pub create_vcpu : ℤ
  pub cpuid : ℤ
  pub mmap_size : ℤ
  pub kvm_run_size : ℕ  -- sizeof(struct kvm_run)
  pub irqfd : ℤ
  pub irqfd_errno : ℕ
  pub get_sregs : ℤ
  pub set_sregs : ℤ
  pub set_regs : ℤ

-- `set_ioeventfd_mmio`: only the interrupt's event file is registered.
unfoldable pub set_ioeventfd_mmio : ℤ → ℕ → ℤ
set_ioeventfd_mmio irqfd errno = if is_negative irqfd then neg errno else pos 0

-- A `size_t` that holds a result.
abbrev pub as_size : ℤ → ℕ
as_size (pos n) = u64 n
as_size (negsuc n) = 18446744073709551615 - n

-- How the set-up ends: in the exit loop, or with a status.
pub data Ending : Type 0 where
  looping : Ending
  exits : ℕ → Ending

-- Checks in their order, each with the status that its failure ends the process with.
abbrev pub first_failing : List (Bool × ℕ) → Ending
first_failing [] = looping
first_failing ((failed, status) ∷ cs) = if failed then exits status else first_failing cs

abbrev pub fresh : KvmState
fresh = record { fd = none; ioefd = none; irqefd = none }

-- `main` up to its loop. `exit(-1)` ends with 255, and `err(1, …)` with 1. The results of
-- `enable_cap`, `gsi_routing` and `cpuid` are not acted on, and neither is a failing `mmap`: the code
-- tests for null, which `mmap` does not return.
unfoldable pub checks : MainCalls → List (Bool × ℕ)
checks c =
    (not (is_zero c.parse), 255)
    ∷ (not (is_zero (kvm_init c.init fresh).1), 255)
    ∷ (is_minus_one c.open_file, 1)
    ∷ (not (is_zero c.fstat), 255)
    ∷ (is_minus_one c.create_vm, 1)
    ∷ (is_negative c.read_file, 255)
    ∷ (is_minus_one c.set_region1, 1)
    ∷ (is_minus_one c.set_region2, 1)
    ∷ (is_minus_one c.create_vcpu, 1)
    ∷ (ltb (as_size c.mmap_size) c.kvm_run_size, 1)
    ∷ (is_negative (set_ioeventfd_mmio c.irqfd c.irqfd_errno), 1)
    ∷ (is_minus_one c.get_sregs, 1)
    ∷ (is_minus_one c.set_sregs, 1)
    ∷ (is_minus_one c.set_regs, 1)
    ∷ []

unfoldable pub setup : MainCalls → Ending
setup c = first_failing (checks c)
