-- ===== src/Virtio/Driver.antt =====
-- virtio/virtio_custdev.c: the character interface of the guest's driver. A `read` waits for its
-- buffer in the middle, so it stands in two parts; the receive callback runs between them.
use virt_learn_program.Base.{
  ℕ, ◌+◌, ◌-◌, ◌%◌, Bool, not, ltb, leb, ◌==◌, if◌then◌else◌, Option, none, some, List, length, [],
  ◌∷◌, ◌||◌, true, false, use_after_free, get_elem?, set, take, replicate, u32, ℤ, pos, neg, enomem,
  enospc, Outcome, ok, fault, out_of_bounds, null_deref, expect, ◌>>=◌,
}

abbrev pub custdev_buffers : ℕ
custdev_buffers = 1024

abbrev pub Bytes : Type 0
Bytes = List ℕ

-- `struct virtio_custom_device`, less its queues and its proc entry. `read_data` is `none` for the
-- null pointer, and else the number of the receive buffer that it points to, and the bytes in it;
-- `data_ready` counts the completions that nobody has waited for. Of the heap, the number of receive
-- buffers allocated so far, which name them, and those that are freed.
pub record VirtioCustomDevice : Type 0 where
  pub buffers : ℕ  -- unsigned int
  pub buf_lens : List ℕ  -- unsigned [1024]
  pub read_data : Option (ℕ × Bytes)
  pub data_ready : ℕ
  pub status : ℕ  -- u8
  pub allocations : ℕ
  pub freed : List ℕ

-- The state that a successful probe leaves of a zeroed structure.
unfoldable pub probed : VirtioCustomDevice
probed = record {
  buffers = 0;
  buf_lens = replicate custdev_buffers 0;
  read_data = none;
  data_ready = 0;
  status = 0;
  allocations = 0;
  freed = [];
}

-- How a `read` begins: it returns at once, or posts the buffer `rcv_buf` of so many bytes and waits.
pub data ReadStart : Type 0 where
  returned : ℤ → ReadStart
  posted : ℕ → ℕ → ReadStart

-- The state, and how the `read` begins.
pub record Submitted : Type 0 where
  pub device : VirtioCustomDevice
  pub start : ReadStart

-- `virtio_custdev_read` up to the wait. `allocated` says whether `kzalloc` succeeds.
unfoldable pub read_submit : VirtioCustomDevice → Bool → Outcome Submitted
read_submit d allocated =
    if ltb d.buffers 1 then ok (record { device = d; start = returned (pos 0) }) else do
      len ← expect out_of_bounds (get_elem? d.buf_lens (d.buffers - 1))
      if allocated
          then ok (record {
            device = record d { allocations = d.allocations + 1 };
            start = posted d.allocations len;
          })
          else ok (record { device = d; start = returned (neg enomem) })

-- `virtio_custdev_inbuf_cb`: the received buffer, or `none` when the queue has none.
unfoldable pub inbuf_cb : VirtioCustomDevice → Option (ℕ × Bytes) → VirtioCustomDevice
inbuf_cb d received = record d {
  read_data = received;
  buffers = u32 (d.buffers + 4294967295);
  data_ready = d.data_ready + 1;
}

-- What a `read` leaves and gives: the state, its result, and the bytes that reach the user.
pub record ReadDone : Type 0 where
  pub device : VirtioCustomDevice
  pub result : ℤ
  pub copied : Bytes

abbrev pub is_in : ℕ → List ℕ → Bool
is_in n [] = false
is_in n (m ∷ ms) = n == m || is_in n ms

-- What `copy_to_user` takes from a receive buffer: it is not to be freed, nor shorter than what is
-- copied of it.
abbrev pub copied_from : VirtioCustomDevice → ℕ → ℕ × Bytes → Outcome Bytes
copied_from d count (buf, source) =
    if is_in buf d.freed
    then fault use_after_free
    else if ltb (length source) count
    then fault out_of_bounds
    else ok (take count source)

-- `virtio_custdev_read` after the wait, for the reader of the buffer `rcv_buf`, which it frees;
-- `uncopied` is the result of `copy_to_user`, the number of bytes that it could not copy.
unfoldable pub read_finish : VirtioCustomDevice → ℕ → ℕ → Outcome ReadDone
read_finish d rcv_buf uncopied = do
  source ← expect null_deref d.read_data
  len ← expect out_of_bounds (get_elem? d.buf_lens d.buffers)
  out ← copied_from d (len - uncopied) source
  let left = if uncopied == 0 then len else u32 (len + 18446744073709551616 - uncopied)
  ok (record {
    device = record d {
      buf_lens = if uncopied == 0 then d.buf_lens else set d.buf_lens d.buffers left;
      data_ready = d.data_ready - 1;
      freed = rcv_buf ∷ d.freed;
    };
    result = pos left;
    copied = out;
  })

-- What a `write` leaves and gives: the state, its result, and the message posted to the host.
pub record WriteDone : Type 0 where
  pub device : VirtioCustomDevice
  pub result : ℤ
  pub message : Option Bytes

-- `virtio_custdev_write` of `user`, all of the caller's bytes. `allocated` says whether `kmalloc`
-- succeeds, and `uncopied` is the result of `copy_from_user`.
unfoldable pub write : VirtioCustomDevice → Bytes → Bool → ℕ → Outcome WriteDone
write d user allocated uncopied =
    if leb custdev_buffers d.buffers
    then ok (record { device = d; result = pos enospc; message = none })
    else if not allocated
    then ok (record { device = d; result = pos 1; message = none })
    else let count = length user - uncopied in
      if ltb d.buffers (length d.buf_lens)
      then ok (record {
        device = record d {
          buf_lens = set d.buf_lens d.buffers (u32 count);
          buffers = u32 (d.buffers + 1);
        };
        result = pos count;
        message = some (take count user);
      })
      else fault out_of_bounds

-- `custdev_notify`, with which the module makes its queues: it tells the device nothing, and reports
-- success.
unfoldable pub custdev_notify : VirtioCustomDevice → VirtioCustomDevice × Bool
custdev_notify d = (d, true)

-- The configuration operations on the status byte.
unfoldable pub get_status : VirtioCustomDevice → ℕ
get_status d = d.status

unfoldable pub set_status : VirtioCustomDevice → ℕ → VirtioCustomDevice
set_status d status = record d { status = status % 256 }

unfoldable pub reset : VirtioCustomDevice → VirtioCustomDevice
reset d = record d { status = 0 }
