-- ===== src/Virtio/Orders/Drain.antt =====
-- How the messages under way come to an end.
use mathlib.Core.Path.{ap}
use virt_learn_program.Base.{ap, ◌<◌, arith, ◌+◌, ok, length, ◌∷◌, [], ◌≡◌, List}
use virt_learn_program.Virtio.Driver.{Bytes}
use virt_learn_program.Virtio.Device
use virt_learn_program.Virtio.Device.{up, popped_out}
use virt_learn_program.Virtio.Orders.{Halves, stores, store_next, act}
use virt_learn_program.Virtio.Orders.Count.{holding}

-- Each message has a byte at least.
abbrev pub AreFull : List Bytes → Type 0
AreFull [] = Unit
AreFull (m ∷ ms) = (0 < length m) × AreFull ms

-- What the device's runs leave of `s`.
record IsStored (s t : Halves) : Type 0 where
  sent : t.tx ≡ []
  held : t.device.rcv_count ≡ s.device.rcv_count + length s.tx
  handed_back : t.used ≡ s.used + length s.tx
  still_owned : t.owned ≡ s.owned
  same_lost : t.lost ≡ s.lost

pub store-eq :
    (s : Halves) (m : Bytes) (q : List Bytes)
    → s.tx ≡ m ∷ q
    → Device.handle_outbuf up s.device (popped_out m) ≡ ok (holding s.device m)
    → act s stores ≡ ok (record s { device = holding s.device m; tx = q; used = s.used + 1 })
unfolding act store_next
store-eq s m q queue stored = ground (arith, queue, stored)
