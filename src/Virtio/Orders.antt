-- ===== src/Virtio/Orders.antt =====
-- The same two halves with every part of a call as a step of its own, so that the steps of several
-- callers, of the device and of the interrupts come in any order.
pub mod Kept
pub mod Steps
pub mod Count
pub mod Drain
mod Examples
use virt_learn_program.Base.{
  ◌-◌, length, ltb, leb, use_after_free, double_free, ◌+◌, fault, true, ℕ, ◌==◌, if◌then◌else◌,
  Bool, Option, none, some, List, [], ◌∷◌, ◌++◌, Outcome, ok, ◌>>=◌,
}
use virt_learn_program.Virtio.Driver
use virt_learn_program.Virtio.Driver.{VirtioCustomDevice, Bytes, is_in, ReadStart, returned, posted}
use virt_learn_program.Virtio.Device
use virt_learn_program.Virtio.Device.{VirtIoCustdev, up, popped_out, popped_in}

-- The halves and the queues between them: messages that the device has not popped, the posted buffers
-- with their capacities, and filled buffers whose callback has not run. `owned` counts the buffers
-- that `write` allocated and nobody has freed, `used` those that the device has handed back, and
-- `lost` the messages that `virtqueue_add_outbuf` did not take, which `write` does not look at. The
-- device runs where a step says so: how it comes to know of a kick is not part of this.
pub record Halves : Type 0 where
  pub driver : VirtioCustomDevice
  pub device : VirtIoCustdev
  pub tx : List Bytes
  pub rx : List (ℕ × ℕ)
  pub filled : List (ℕ × Bytes)
  pub owned : ℕ
  pub used : ℕ
  pub lost : ℕ

-- The slots of a ring. An element takes one until its callback has taken it back.
abbrev pub vring_num : ℕ
vring_num = 256

-- A step: a `write`, the device's handler of either queue, a `read` up to its wait, the two
-- callbacks, and the rest of the `read` that waits with a buffer.
pub data Action : Type 0 where
  writes : Bytes → Bool → ℕ → Action
  stores : Action
  submits : Bool → Action
  fills : Action
  receives : Action
  reclaims : Action
  finishes : ℕ → ℕ → Action

abbrev pub listed {ℓ} : {A : Type ℓ} → Option A → List A
listed none = []
listed (some x) = x ∷ []

-- The device runs for the oldest element of a queue; an empty queue is not kicked.
unfoldable pub store_next : Halves → List Bytes → Outcome Halves
store_next s [] = ok s
store_next s (m ∷ tx) = do
  d ← Device.handle_outbuf up s.device (popped_out m)
  ok (record s { device = d; tx = tx; used = s.used + 1 })

-- The buffer with what the device put in it.
abbrev pub named : ℕ → Option Bytes → List (ℕ × Bytes)
named rcv_buf none = []
named rcv_buf (some b) = (rcv_buf, b) ∷ []

-- A buffer that its reader has freed is not to be written to.
unfoldable pub fill_next : Halves → List (ℕ × ℕ) → Outcome Halves
fill_next s [] = ok s
fill_next s ((rcv_buf, n) ∷ rx) = do
  r ← Device.handle_inbuf up s.device (popped_in n)
  if is_in rcv_buf s.driver.freed
      then fault use_after_free
      else ok (record s { device = r.device; rx = rx; filled = s.filled ++ named rcv_buf r.pushed })

unfoldable pub receive_next : Halves → List (ℕ × Bytes) → Halves
receive_next s [] = s
receive_next s (b ∷ filled) = record s {
  driver = Driver.inbuf_cb s.driver (some b);
  filled = filled;
}

-- `virtio_custdev_outbuf_cb`: a buffer that was handed back is freed.
unfoldable pub reclaim_next : Halves → Outcome Halves
reclaim_next s =
    if s.used == 0
    then ok s
    else if s.owned == 0
    then fault double_free
    else ok (record s { owned = s.owned - 1; used = s.used - 1 })

unfoldable pub post : Halves → ReadStart → Halves
post s (returned r) = s
post s (posted rcv_buf n) = record s {
  rx = if ltb (length s.rx + length s.filled) vring_num then s.rx ++ (rcv_buf, n) ∷ [] else s.rx;
}

-- `virtqueue_add_outbuf` of what a `write` sends, if it sends something: a full ring does not take it.
unfoldable pub send : Halves → Option Bytes → Halves
send s message =
    let room = ltb (length s.tx + s.used) vring_num in
    let sent = listed message in
    record s {
      tx = if room then s.tx ++ sent else s.tx;
      owned = s.owned + length sent;
      lost = if room then s.lost else s.lost + length sent;
    }

-- The rest of the `read` with the buffer `rcv_buf`: nothing, if there is no such `read` or it has
-- returned, or while nobody has completed.
unfoldable pub finish : Halves → ℕ → ℕ → Outcome Halves
finish s rcv_buf uncopied =
    if leb s.driver.allocations rcv_buf
    then ok s
    else if is_in rcv_buf s.driver.freed
    then ok s
    else if s.driver.data_ready == 0
    then ok s
    else do r ← Driver.read_finish s.driver rcv_buf uncopied; ok (record s { driver = r.device })

unfoldable pub act : Halves → Action → Outcome Halves
unfolding store_next fill_next receive_next reclaim_next post send finish
act s (writes user allocated uncopied) = do
  w ← Driver.write s.driver user allocated uncopied
  ok (send (record s { driver = w.device }) w.message)
act s stores = store_next s s.tx
act s (submits allocated) = do
  r ← Driver.read_submit s.driver allocated
  ok (post (record s { driver = r.device }) r.start)
act s fills = fill_next s s.rx
act s receives = ok (receive_next s s.filled)
act s reclaims = reclaim_next s
act s (finishes rcv_buf uncopied) = finish s rcv_buf uncopied

unfoldable pub acts : Halves → List Action → Outcome Halves
acts s [] = ok s
acts s (a ∷ rest) = do s' ← act s a; acts s' rest

unfoldable pub fresh : Halves
fresh = record {
  driver = Driver.probed;
  device = Device.realize true;
  tx = [];
  rx = [];
  filled = [];
  owned = 0;
  used = 0;
  lost = 0;
}
