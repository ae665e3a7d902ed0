-- ===== src/Virtio/Kicks/Examples.antt =====
-- Two writes before the device runs.
use virt_learn_program.Base.{true, none, List, [], ◌∷◌, replicate}
use virt_learn_program.Virtio.Driver
use virt_learn_program.Virtio.Driver.{Bytes}
use virt_learn_program.Virtio.Device
use virt_learn_program.Virtio.Orders.{Halves, Action, writes}

abbrev two_writes : List Action
two_writes = writes (1 ∷ []) true 0 ∷ writes (2 ∷ 3 ∷ []) true 0 ∷ []

abbrev waiting : Halves
waiting = record {
  driver = record {
    buffers = 2;
    buf_lens = 1 ∷ 2 ∷ replicate 1022 0;
    read_data = none;
    data_ready = 0;
    status = 0;
    allocations = 0;
    freed = [];
  };
  device = record {
    vm_running = true;
    status = 0;
    rcv_bufs = replicate 1024 Device.unset;
    rcv_count = 0;
  };
  tx = (1 ∷ []) ∷ (2 ∷ 3 ∷ []) ∷ [];
  rx = [];
  filled = [];
  owned = 2;
  used = 0;
  lost = 0;
}
