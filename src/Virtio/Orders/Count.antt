-- ===== src/Virtio/Orders/Count.antt =====
-- How the two counts agree in every order of the steps.
use virt_learn_program.Base.{
  [], ◌<◌, length, set, ◌+◌, ◌∷◌, ok, ◌≡◌, arith, ℕ, length-replicate, List, refl,
}
use virt_learn_program.Virtio.Driver
use virt_learn_program.Virtio.Driver.{Bytes}
use virt_learn_program.Virtio.Device
use virt_learn_program.Virtio.Device.{up, popped_out}
use virt_learn_program.Virtio.Orders.{Halves, fresh}
use virt_learn_program.Virtio.Orders.Kept.{IsCounted}

pub fresh-IsCounted : IsCounted fresh
unfolding fresh Driver.probed Device.realize
fresh-IsCounted = record {
  lens_size = length-replicate {A = ℕ} 1024 0;
  slots_size = length-replicate 1024 Device.unset;
  total = refl;
  fits = omega arith;
  owners = refl;
  ring = omega arith;
}

-- The device with the message `m` stored.
abbrev pub holding : Device.VirtIoCustdev → Bytes → Device.VirtIoCustdev
holding d m = record d {
  rcv_bufs = set d.rcv_bufs d.rcv_count (Device.live m);
  rcv_count = d.rcv_count + 1;
}

pub handle_outbuf-IsCounted :
    (s : Halves) (m : Bytes) (tx : List Bytes)
    → IsCounted s
    → s.tx ≡ m ∷ tx
    → 0 < length m
    → Device.handle_outbuf up s.device (popped_out m) ≡ ok (holding s.device m)
unfolding Device.handle_outbuf
handle_outbuf-IsCounted s [] tx c queue some_bytes = absurd (omega arith)
handle_outbuf-IsCounted s (b ∷ bs) tx c queue some_bytes = ground (arith, c, queue)
