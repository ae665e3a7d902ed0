-- ===== src/Virtio/Orders/Kept.antt =====
-- Every part of a step keeps the two counts in agreement.
use virt_learn_program.Base.{
  Option, none, ltb, if◌then◌else◌, inr, inl, get_elem?, Option-cases, length-append, ◌-◌,
  get_elem?-out_of_range, u32, length-set, ◌≤◌, ◌∷◌, ◌+◌, ◌++◌, some, ◌≡◌, length, List, Bool, ℕ,
  ok, arith,
}
use virt_learn_program.Virtio.Driver
use virt_learn_program.Virtio.Driver.{VirtioCustomDevice, Bytes, is_in}
use virt_learn_program.Virtio.Device
use virt_learn_program.Virtio.Device.{up, popped_out, popped_in}
use virt_learn_program.Virtio.Orders.{Halves, send, named, listed}

-- What the driver counts is what is under way to the device, what the device holds, what is under way
-- back, and what was lost. The buffers of `write` that nobody has freed are those under way to the
-- device, those handed back and those lost.
pub record IsCounted (s : Halves) : Type 0 where
  pub lens_size : length s.driver.buf_lens ≡ 1024
  pub slots_size : length s.device.rcv_bufs ≡ 1024
  pub total : s.driver.buffers ≡ length s.tx + s.device.rcv_count + length s.filled + s.lost
  pub fits : s.driver.buffers ≤ 1024
  pub owners : s.owned ≡ length s.tx + s.used + s.lost
  pub ring : length s.tx + s.used ≤ 256

at_most_one : (m : Option Bytes) → length (listed m) ≤ 1
at_most_one none = omega arith
at_most_one (some b) = omega arith

write_ring :
    (s : Halves) (m : Option Bytes)
    → length (s.tx ++ listed m) ≡ length s.tx + length (listed m)
    → length s.tx + s.used ≤ 256
    → length (if ltb (length s.tx + s.used) 256 then s.tx ++ listed m else s.tx) + s.used ≤ 256
write_ring s m queue ring = ground (arith, at_most_one m, queue)

pub write-IsCounted :
    (s : Halves) (user : Bytes) (allocated : Bool) (uncopied : ℕ) (w : Driver.WriteDone)
    → IsCounted s
    → Driver.write s.driver user allocated uncopied ≡ ok w
    → IsCounted (send (record s { driver = w.device }) w.message)
unfolding Driver.write send
write-IsCounted s user allocated uncopied w c e =
    let size = length-set s.driver.buf_lens s.driver.buffers (u32 (length user - uncopied)) in
    let queue = length-append s.tx (listed w.message) in
    record {
      lens_size = ground (arith, c, size);
      slots_size = c.slots_size;
      total = ground (arith, c, queue);
      fits = ground (arith, c);
      owners = ground (arith, c, queue);
      ring = write_ring s w.message queue c.ring;
    }

pub store-IsCounted :
    (s : Halves) (popped : Option Bytes) (m : Bytes) (tx : List Bytes) (d : Device.VirtIoCustdev)
    → IsCounted s
    → s.tx ≡ m ∷ tx
    → Device.handle_outbuf up s.device popped ≡ ok d
    → IsCounted (record s { device = d; tx = tx; used = s.used + 1 })
unfolding Device.handle_outbuf
store-IsCounted s none m tx d c queue e = absurd cc
store-IsCounted s (some b) m tx d c queue e = record {
  lens_size = c.lens_size;
  slots_size = ground (arith, c, length-set s.device.rcv_bufs s.device.rcv_count (Device.live b));
  total = ground (arith, c, queue);
  fits = c.fits;
  owners = ground (arith, c, queue);
  ring = ground (arith, c, queue);
}

pub fill-IsCounted :
    (s : Halves) (popped : Option ℕ) (rcv_buf : ℕ) (rx : List (ℕ × ℕ)) (r : Device.InDone)
    → IsCounted s
    → Device.handle_inbuf up s.device popped ≡ ok r
    → IsCounted
        (record s { device = r.device; rx = rx; filled = s.filled ++ named rcv_buf r.pushed })
unfolding Device.handle_inbuf
fill-IsCounted s none rcv_buf rx r c e = absurd cc
fill-IsCounted s (some n) rcv_buf rx r c e =
    let last = u32 (s.device.rcv_count + 4294967295) in
    let stop = get_elem?-out_of_range s.device.rcv_bufs last in
    record {
      lens_size = c.lens_size;
      slots_size = ground (arith, c, length-set s.device.rcv_bufs last Device.freed);
      total = ground (arith, c, stop, length-append s.filled (named rcv_buf r.pushed));
      fits = c.fits;
      owners = c.owners;
      ring = c.ring;
    }

pub receive-IsCounted :
    (s : Halves) (b : ℕ × Bytes) (filled : List (ℕ × Bytes))
    → IsCounted s
    → s.filled ≡ b ∷ filled
    → IsCounted (record s { driver = Driver.inbuf_cb s.driver (some b); filled = filled })
unfolding Driver.inbuf_cb
receive-IsCounted s b filled c queue = record {
  lens_size = c.lens_size;
  slots_size = c.slots_size;
  total = ground (arith, c, queue);
  fits = ground (arith, c, queue);
  owners = c.owners;
  ring = c.ring;
}

pub finish-IsCounted :
    (s : Halves) (rcv_buf uncopied : ℕ) (r : Driver.ReadDone)
    → IsCounted s
    → Driver.read_finish s.driver rcv_buf uncopied ≡ ok r
    → IsCounted (record s { driver = r.device })
unfolding Driver.read_finish
finish-IsCounted s rcv_buf uncopied r c e = record {
  lens_size = elim (Option-cases (get_elem? s.driver.buf_lens s.driver.buffers)) [
    | inl missing ↦ ground (arith, c)
    | inr (len, held) ↦
        let left = u32 (len + 18446744073709551616 - uncopied) in
        ground (arith, c, length-set s.driver.buf_lens s.driver.buffers left)
  ];
  slots_size = c.slots_size;
  total = ground (arith, c);
  fits = ground (arith, c);
  owners = c.owners;
  ring = c.ring;
}

pub submit-IsCounted :
    (s : Halves) (allocated : Bool) (r : Driver.Submitted)
    → IsCounted s
    → Driver.read_submit s.driver allocated ≡ ok r
    → IsCounted (record s { driver = r.device })
unfolding Driver.read_submit
submit-IsCounted s allocated r c e = record {
  lens_size = ground (arith, c);
  slots_size = c.slots_size;
  total = ground (arith, c);
  fits = ground (arith, c);
  owners = c.owners;
  ring = c.ring;
}
