-- ===== src/Virtio/Link.antt =====
-- The guest's driver and QEMU's device joined. Whether a kick reaches the device is the transport's:
-- of one that delivers it, it runs the device's handler before it returns, as it does where the
-- notification is handled in the exiting thread; the module's own queues have a `custdev_notify` that
-- does not deliver it.
pub mod Spec
pub mod Stored
pub mod Refine
pub mod Sessions
pub mod Teardown
pub mod Silent
use virt_learn_program.Base.{
  ℕ, Bool, true, false, Option, none, some, List, [], ◌∷◌, ℤ, Outcome, ok, fault, ◌>>=◌,
}
use virt_learn_program.Virtio.Driver
use virt_learn_program.Virtio.Driver.{VirtioCustomDevice, Bytes, ReadStart, returned, posted}
use virt_learn_program.Virtio.Device
use virt_learn_program.Virtio.Device.{VirtIoCustdev, Host, popped_out, popped_in}

pub record System : Type 0 where
  pub driver : VirtioCustomDevice
  pub device : VirtIoCustdev

-- A call on the proc file; how an allocation and a copy to or from the user end is given with it.
pub data Command : Type 0 where
  write : Bytes → Bool → ℕ → Command
  read : Bool → ℕ → Command

-- What the caller sees: a result and the bytes copied to it. A reader whose buffer the device does
-- not fill waits.
pub data Reply : Type 0 where
  replied : ℤ → Bytes → Reply
  blocked : Reply

-- The transport below the queues: one whose notification reaches the device, or `custdev_notify`.
pub data Transport : Type 0 where
  delivers : Transport
  own_notify : Transport

-- The device's part of a `write`: the message is popped and stored.
unfoldable pub transmit : Transport → Host → VirtIoCustdev → Option Bytes → Outcome VirtIoCustdev
transmit transport host d none = ok d
transmit delivers host d (some m) = Device.handle_outbuf host d (popped_out m)
transmit own_notify host d (some m) = ok d

-- The rest of a `read` once the device has run: the callback, and what follows the wait.
unfoldable pub complete_read : System → ℕ → ℕ → Option Bytes → Outcome (System × Reply)
complete_read s rcv_buf uncopied none = ok (s, blocked)
complete_read s rcv_buf uncopied (some b) = do
  r ← Driver.read_finish (Driver.inbuf_cb s.driver (some (rcv_buf, b))) rcv_buf uncopied
  ok (record s { driver = r.device }, replied r.result r.copied)

unfoldable pub continue_read : Transport → Host → System → ℕ → ReadStart → Outcome (System × Reply)
unfolding complete_read
continue_read transport host s uncopied (returned r) = ok (s, replied r [])
continue_read delivers host s uncopied (posted rcv_buf capacity) = do
  r ← Device.handle_inbuf host s.device (popped_in capacity)
  complete_read (record s { device = r.device }) rcv_buf uncopied r.pushed
continue_read own_notify host s uncopied (posted rcv_buf capacity) = ok (s, blocked)

unfoldable pub step : Transport → Host → System → Command → Outcome (System × Reply)
unfolding transmit continue_read
step transport host s (write user allocated uncopied) = do
  w ← Driver.write s.driver user allocated uncopied
  d ← transmit transport host s.device w.message
  ok (record { driver = w.device; device = d }, replied w.result [])
step transport host s (read allocated uncopied) = do
  r ← Driver.read_submit s.driver allocated
  continue_read transport host (record s { driver = r.device }) uncopied r.start

unfoldable pub run : Transport → Host → System → List Command → Outcome (System × List Reply)
run transport host s [] = ok (s, [])
run transport host s (c ∷ cs) = do
  (s', r) ← step transport host s c
  (s'', rs) ← run transport host s' cs
  ok (s'', r ∷ rs)

unfoldable pub boot : System
boot = record { driver = Driver.probed; device = Device.realize true }
