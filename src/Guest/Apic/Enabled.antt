-- ===== src/Guest/Apic/Enabled.antt =====
-- What switching the local APIC on changes, through the guest's page tables.
use virt_learn_program.Guest.Memory.{Memory}
