-- ===== src/Virtio/Kicks/Stuck.antt =====
-- What a merged kick leaves behind.
use virt_learn_program.Base.{Outcome, ok, fault}
use virt_learn_program.Virtio.Orders.Kept.{IsCounted}
use virt_learn_program.Virtio.Kicks.{Kicked}

abbrev KeepsKicked : Outcome Kicked → Type 0
KeepsKicked (ok k) = IsCounted k.halves
KeepsKicked (fault f) = Unit
