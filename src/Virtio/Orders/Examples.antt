-- ===== src/Virtio/Orders/Examples.antt =====
-- A ring that is full.
use virt_learn_program.Base.{true, none, List, [], ◌∷◌, ◌++◌, replicate}
use virt_learn_program.Virtio.Driver
use virt_learn_program.Virtio.Driver.{Bytes}
use virt_learn_program.Virtio.Device
use virt_learn_program.Virtio.Orders.{Halves, Action, writes}

-- 256 messages that the device has not taken.
abbrev many_writes : List Action
many_writes = replicate 256 (writes (7 ∷ []) true 0)

abbrev full : Halves
full = record {
  driver = record {
    buffers = 256;
    buf_lens = replicate 256 1 ++ replicate 768 0;
    read_data = none;
    data_ready = 0;
    status = 0;
    allocations = 0;
    freed = [];
  };
  device = record {
    vm_running = true;
    status = 0;
    rcv_bufs = replicate 1024 Device.unset;
    rcv_count = 0;
  };
  tx = replicate 256 (7 ∷ []);
  rx = [];
  filled = [];
  owned = 256;
  used = 0;
  lost = 0;
}
