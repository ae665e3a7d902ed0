-- ===== src/Vmx.antt =====
-- The hypervisor module (vmx_mod/): the bitmap of intercepted registers, the intercepts and
-- segment attributes of a virtual machine's control block, and its guest state.
pub mod Msrpm
pub mod Segment
pub mod Config
pub mod Guest
pub mod Intercept
pub mod Fields
pub mod Cpus
pub mod Entry
pub mod Structures
pub mod Translations
pub mod Gdt
pub mod Dump
pub mod Launch
mod Examples
