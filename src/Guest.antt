-- ===== src/Guest.antt =====
-- asm: the guest program that the monitor is given, from its page tables to its messages.
pub mod Memory
pub mod Screen
pub mod Apic
pub mod Handlers
pub mod Paging
pub mod Entry
pub mod Mode
pub mod Gates
pub mod Disk
mod Examples
