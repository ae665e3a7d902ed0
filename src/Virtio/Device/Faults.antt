-- ===== src/Virtio/Device/Faults.antt =====
-- What the device does when the guest does not keep to the stack: it checks neither its own count
-- nor the length of the guest's buffer.
use virt_learn_program.Base.{
  leb, if◌then◌else◌, ℕ, suc, ◌+◌, ◌≤◌, ◌<◌, ◌≡◌, ◌↔◌, arith, some, length, take, set, get_elem?,
  get_elem?-out_of_range, ok, fault, out_of_bounds, u32,
}
use virt_learn_program.Virtio.Device.{
  Bytes, live, freed, VirtIoCustdev, up, handle_outbuf, handle_inbuf,
}

-- While the queue is ready and the machine runs, storing a message leaves the array exactly when
-- 1024 or more messages are held already.
pub handle_outbuf_faults_iff :
    (d : VirtIoCustdev) (m : Bytes)
    → length d.rcv_bufs ≡ 1024
    → (handle_outbuf up d (some m) ≡ fault out_of_bounds) ↔ (1024 ≤ d.rcv_count)
unfolding handle_outbuf
handle_outbuf_faults_iff d m size = ground arith

-- With no message held, any request of the guest reads before the array.
pub handle_inbuf_empty :
    (d : VirtIoCustdev) (capacity : ℕ)
    → length d.rcv_bufs ≡ 1024
    → d.rcv_count ≡ 0
    → handle_inbuf up d (some capacity) ≡ fault out_of_bounds
unfolding handle_inbuf
handle_inbuf_empty d capacity size none_held =
    ground (arith, get_elem?-out_of_range d.rcv_bufs (u32 (d.rcv_count + 4294967295)))

-- With `b` on top, the bytes that the guest asks for are `b`'s first, and the count falls by one;
-- a request longer than `b` reads past its end.
pub handle_inbuf_top :
    (d : VirtIoCustdev) (capacity n : ℕ) (b : Bytes)
    → length d.rcv_bufs ≡ 1024
    → n < 1024
    → d.rcv_count ≡ suc n
    → get_elem? d.rcv_bufs n ≡ some (live b)
    → handle_inbuf up d (some capacity) ≡ (
        if leb capacity (length b)
        then ok (record {
          device = record d { rcv_bufs = set d.rcv_bufs n freed; rcv_count = n };
          pushed = some (take capacity b);
        })
        else fault out_of_bounds)
unfolding handle_inbuf
handle_inbuf_top d capacity n b size lt count held = ground arith
