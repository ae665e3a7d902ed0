-- ===== src/Vm.antt =====
-- The user-space monitor over KVM (vm.c): its command line, the processor identification that it
-- hands to the guest, and its exit loop.
pub mod Args
pub mod Cpuid
pub mod Exits
pub mod Setup
pub mod Events
mod Examples
