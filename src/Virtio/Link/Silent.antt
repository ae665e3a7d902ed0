-- ===== src/Virtio/Link/Silent.antt =====
-- What a caller sees over the module's own queues, whose `custdev_notify` does not tell the device of
-- a kick.
use virt_learn_program.Base.{◌+◌, length, set, u32}
use virt_learn_program.Virtio.Driver
use virt_learn_program.Virtio.Driver.{Bytes}
use virt_learn_program.Virtio.Device.{Host}
use virt_learn_program.Virtio.Link.{System}

module _ (host : Host) where
  -- The state after a message is written: it is in the queue, and the device has not seen it.
  abbrev queued : System → Bytes → System
  queued s m = record s {
    driver = record s.driver {
      buf_lens = set s.driver.buf_lens s.driver.buffers (u32 (length m));
      buffers = s.driver.buffers + 1;
    };
  }
