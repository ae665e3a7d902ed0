-- ===== src/Virtio/Device.antt =====
-- virtio/virtio-custdev.c: the device that QEMU provides. It keeps what the guest wrote in a stack
-- of buffers of its own, and hands the newest one back.
pub mod Faults
use virt_learn_program.Base.{
  ℕ, zero, suc, ◌+◌, ◌%◌, Bool, true, false, not, ltb, leb, if◌then◌else◌, Option, none, some, List,
  [], ◌∷◌, length, get_elem?, set, take, replicate, u32, Outcome, ok, fault, out_of_bounds,
  null_deref, double_free, use_after_free, uninitialised, expect, ◌>>=◌,
}

abbrev pub Bytes : Type 0
Bytes = List ℕ

-- A pointer of `rcv_bufs`: to nothing yet, to a buffer of its own, or to one that was freed.
pub data Slot : Type 0 where
  unset : Slot
  live : Bytes → Slot
  freed : Slot

pub record VirtIoCustdev : Type 0 where
  pub vm_running : Bool
  pub status : ℕ
  pub rcv_bufs : List Slot  -- void *[1024]
  pub rcv_count : ℕ  -- unsigned int

-- What the device finds of its surroundings when a queue is kicked.
pub record Host : Type 0 where
  pub queue_ready : Bool  -- virtio_queue_ready
  pub run_state_running : Bool  -- runstate_check (RUN_STATE_RUNNING)
  pub malloc_ok : Bool

abbrev pub up : Host
up = record { queue_ready = true; run_state_running = true; malloc_ok = true }

-- `virtio_custdev_device_realize`, as far as the device's own fields go.
unfoldable pub realize : Bool → VirtIoCustdev
realize running = record {
  vm_running = running;
  status = 0;
  rcv_bufs = replicate 1024 unset;
  rcv_count = 0;
}

-- `virtio_custdev_set_status`.
unfoldable pub set_status : VirtIoCustdev → ℕ → VirtIoCustdev
set_status d status = if not d.vm_running then d else record d { status = status % 256 }

-- Storing through an index, and reading a buffer that is freed or not allocated.
unfoldable pub store_slot : VirtIoCustdev → ℕ → Slot → Outcome VirtIoCustdev
store_slot d i s =
    if ltb i (length d.rcv_bufs)
    then ok (record d { rcv_bufs = set d.rcv_bufs i s })
    else fault out_of_bounds

abbrev pub contents : Slot → Outcome Bytes
contents unset = fault uninitialised
contents (live b) = ok b
contents freed = fault use_after_free

-- What `virtqueue_pop` gives for an element of so many bytes: QEMU refuses an empty one, with the
-- null pointer.
abbrev pub popped_out : Bytes → Option Bytes
popped_out [] = none
popped_out (b ∷ bs) = some (b ∷ bs)

abbrev pub popped_in : ℕ → Option ℕ
popped_in zero = none
popped_in (suc n) = some (suc n)

-- `virtio_custdev_handle_outbuf`. The popped element has one segment, the bytes `out`; `none` is the
-- null pointer of an empty queue.
unfoldable pub handle_outbuf : Host → VirtIoCustdev → Option Bytes → Outcome VirtIoCustdev
unfolding store_slot
handle_outbuf host d popped =
    if not host.queue_ready then ok d else if not host.run_state_running then ok d else do
      out ← expect null_deref popped
      d' ← store_slot d d.rcv_count (live out)
      if host.malloc_ok
          then ok (record d' { rcv_count = u32 (d'.rcv_count + 1) })
          else fault null_deref

-- What `virtio_custdev_handle_inbuf` leaves, and the bytes that it pushes back to the guest.
pub record InDone : Type 0 where
  pub device : VirtIoCustdev
  pub pushed : Option Bytes

-- `virtio_custdev_handle_inbuf`. The popped element has one segment, of `capacity` bytes: so many
-- are read from the device's buffer, whatever that buffer's own length.
unfoldable pub handle_inbuf : Host → VirtIoCustdev → Option ℕ → Outcome InDone
unfolding store_slot
handle_inbuf host d popped =
    let last_buf = u32 (d.rcv_count + 4294967295) in
    if not host.queue_ready
    then ok (record { device = d; pushed = none })
    else if not host.run_state_running
    then ok (record { device = d; pushed = none })
    else do
      capacity ← expect null_deref popped
      slot ← expect out_of_bounds (get_elem? d.rcv_bufs last_buf)
      b ← contents slot
      d' ← store_slot d last_buf freed
      if ltb (length b) capacity
          then fault out_of_bounds
          else ok (record {
            device = record d' { rcv_count = u32 (d.rcv_count + 4294967295) };
            pushed = some (take capacity b);
          })

-- `g_free` of a pointer of `rcv_bufs`; freeing null is nothing.
abbrev pub free_slot : Slot → Outcome Slot
free_slot unset = ok unset
free_slot (live b) = ok freed
free_slot freed = fault double_free

-- The loop of `virtio_custdev_device_unrealize` over the first `n` buffers, from index `i`.
unfoldable pub free_from : ℕ → ℕ → List Slot → Outcome (List Slot)
free_from zero i slots = ok slots
free_from (suc n) i slots = do
  slot ← expect out_of_bounds (get_elem? slots i)
  slot' ← free_slot slot
  free_from n (i + 1) (set slots i slot')

-- `virtio_custdev_device_unrealize`.
unfoldable pub unrealize : VirtIoCustdev → Outcome VirtIoCustdev
unfolding free_from
unrealize d = do slots ← free_from d.rcv_count 0 d.rcv_bufs; ok (record d { rcv_bufs = slots })
