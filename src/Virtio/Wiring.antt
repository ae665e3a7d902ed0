-- ===== src/Virtio/Wiring.antt =====
-- Which handler of QEMU's device and which callback of the driver each queue has.
use virt_learn_program.Base.{◌+◌, some, none, [], ◌∷◌, pos, get_elem?, ◌≡◌, Option, List, ℕ, refl}
use virt_learn_program.Virtio.Module.{
  QueuePtr, null, err_ptr, queue, Kernel, Assigned, assign_virtqueue, find_from,
}

-- The handlers of virtio-custdev.c, and the callbacks of virtio_custdev.c.
pub data Handler : Type 0 where
  handle_outbuf handle_inbuf : Handler

pub data Callback : Type 0 where
  outbuf_cb inbuf_cb : Callback

-- The calls of `virtio_add_queue` in `virtio_custdev_device_realize`: queue 0 first.
unfoldable pub device_queues : List Handler
device_queues = handle_outbuf ∷ handle_inbuf ∷ []

-- `callbacks` and `names` of `virtio_vcust_assign_virtqueue`, by the queue's number.
unfoldable pub callbacks : List Callback
callbacks = outbuf_cb ∷ inbuf_cb ∷ []

-- What happens when the driver kicks a queue, and when the device notifies the driver of it.
abbrev pub kicked : QueuePtr → Option Handler
kicked (queue i) = get_elem? device_queues i
kicked null = none
kicked (err_ptr e) = none

abbrev pub notified : QueuePtr → Option Callback
notified (queue i) = get_elem? callbacks i
notified null = none
notified (err_ptr e) = none

-- If the core creates each queue under the number that it is asked for, then the driver gets its two
-- queues, a kick of `vq_tx` runs the handler that stores a message and a kick of `vq_rx` the one that
-- hands a message back, and each queue has the callback for its direction.
pub assign_virtqueue-kicked :
    (k : Kernel)
    → ((i : ℕ) → k.vring i ≡ queue i)
    → (a : Assigned) × (assign_virtqueue k ≡ (pos 0, some a))
      × (kicked a.vq_tx ≡ some handle_outbuf)
      × (kicked a.vq_rx ≡ some handle_inbuf)
      × (notified a.vq_tx ≡ some outbuf_cb)
      × (notified a.vq_rx ≡ some inbuf_cb)
unfolding assign_virtqueue find_from device_queues callbacks
assign_virtqueue-kicked k numbered = (
  record { vq_tx = queue 0; vq_rx = queue 1 },
  rw (numbered 0, numbered (0 + 1)),
  refl,
  refl,
  refl,
  refl,
)
