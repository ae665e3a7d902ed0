-- ===== src/Virtio/Link/Refine.antt =====
-- The joined driver and device implement the bounded stack.
use virt_learn_program.Base.{
  ℕ, zero, suc, ◌+◌, ◌-◌, ◌≤◌, ◌<◌, ◌^◌, ◌≡◌, ◌≢◌, refl, arith, Bool, true, false, Bool-cases, leb,
  ◌==◌, if◌then◌else◌, inl, inr, some, List, [], ◌∷◌, length, take, get_elem?, set,
  get_elem?-set_ne, get_elem?-set_self, length-set, length-take, take-length, length-replicate,
  replicate, pos, ok,
}
use virt_learn_program.Virtio.Driver
use virt_learn_program.Virtio.Driver.{Bytes}
use virt_learn_program.Virtio.Device
use virt_learn_program.Virtio.Device.{live, freed, unset, up}
use virt_learn_program.Virtio.Link.{
  System, delivers, Command, write, read, replied, step, run, boot,
}
use virt_learn_program.Virtio.Link.Spec.{Stack, IsPossible, ArePossible, spec, spec_run}
use virt_learn_program.Virtio.Link.Stored.{
  AreBelow-suc, AreBelow-is_in, Represents, IsStored-set_lens, IsStored-set_slots,
}

-- The state after a `write` that stores the message `m`.
abbrev written : System → Bytes → System
written s m = record {
  driver = record s.driver {
    buf_lens = set s.driver.buf_lens s.driver.buffers (length m);
    buffers = s.driver.buffers + 1;
  };
  device = record s.device {
    rcv_bufs = set s.device.rcv_bufs s.device.rcv_count (live m);
    rcv_count = s.device.rcv_count + 1;
  };
}

written-Represents :
    (s : System) (st : Stack) (m : Bytes)
    → Represents s st
    → length st < 1024
    → 0 < length m
    → length m < 2 ^ 32
    → Represents (written s m) (m ∷ st)
written-Represents s st m rep room some_bytes small = record {
  lens_size = ground (arith, length-set s.driver.buf_lens s.driver.buffers (length m));
  slots_size = ground (arith, length-set s.device.rcv_bufs s.device.rcv_count (live m));
  buffers_eq = ground arith;
  count_eq = ground arith;
  fits = ground arith;
  heap = rep.heap;
  spare = λ i b h e.
      rep.spare i b (omega arith)
        (rw (← get_elem?-set_ne s.device.rcv_bufs s.device.rcv_count i (live m) (omega arith)) e);
  stored = ground (
    arith,
    get_elem?-set_self s.driver.buf_lens s.driver.buffers (length m),
    get_elem?-set_self s.device.rcv_bufs s.device.rcv_count (live m),
    IsStored-set_lens s.driver.buf_lens (set s.device.rcv_bufs s.device.rcv_count (live m)) st
        s.driver.buffers (length m),
    IsStored-set_slots s.driver.buf_lens s.device.rcv_bufs st s.device.rcv_count (live m),
  );
}

write_stores :
    (s : System) (st : Stack) (user : Bytes) (uncopied : ℕ)
    → Represents s st
    → length st < 1024
    → length user < 2 ^ 32
    → uncopied < length user
    → step delivers up s (write user true uncopied)
      ≡ ok (
        written s (take (length user - uncopied) user),
        replied (pos (length user - uncopied)) [],
      )
unfolding step Driver.write Device.handle_outbuf
write_stores s st user uncopied rep room small le =
    ground (arith, length-take (length user - uncopied) user (omega arith))

pub write-Represents :
    (s : System) (st : Stack) (user : Bytes) (allocated : Bool) (uncopied : ℕ)
    → Represents s st
    → IsPossible (write user allocated uncopied) st
    → (s' : System) × (step delivers up s (write user allocated uncopied)
        ≡ ok (s', (spec st (write user allocated uncopied)).1))
      × Represents s' (spec st (write user allocated uncopied)).0
unfolding spec
write-Represents s st user false uncopied rep possible =
    (s, unfold step Driver.write Device.handle_outbuf in ground arith, ground arith)
write-Represents s st user true uncopied rep possible = elim (Bool-cases (leb 1024 (length st))) [
  | inl full ↦ (s, unfold step Driver.write Device.handle_outbuf in ground arith, ground arith)
  | inr room ↦ (
    written s (take (length user - uncopied) user),
    ground (
      arith,
      write_stores s st user uncopied,
      length-take (length user - uncopied) user (omega arith),
    ),
    ground (
      arith,
      written-Represents s st (take (length user - uncopied) user),
      length-take (length user - uncopied) user (omega arith),
    ),
  )
]

-- The state after a `read` that takes the message `b`, which leaves `n` below it.
abbrev taken : System → Bytes → ℕ → ℕ → System
taken s b n uncopied = record {
  driver = record s.driver {
    buf_lens =
        if uncopied == 0 then s.driver.buf_lens else set s.driver.buf_lens n (length b - uncopied);
    buffers = n;
    read_data = some (s.driver.allocations, b);
    allocations = s.driver.allocations + 1;
    freed = s.driver.allocations ∷ s.driver.freed;
  };
  device = record s.device { rcv_bufs = set s.device.rcv_bufs n freed; rcv_count = n };
}

taken-Represents :
    (s : System) (st : Stack) (b : Bytes) (uncopied : ℕ)
    → Represents s (b ∷ st)
    → Represents (taken s b (length st) uncopied) st
taken-Represents s st b uncopied rep = record {
  lens_size = ground (arith, length-set s.driver.buf_lens (length st) (length b - uncopied));
  slots_size = ground (arith, length-set s.device.rcv_bufs (length st) freed);
  buffers_eq = refl;
  count_eq = refl;
  fits = ground arith;
  heap = (omega arith, AreBelow-suc s.driver.allocations s.driver.freed rep.heap);
  spare = λ i c h e. ground (
    arith,
    rep.spare i c,
    get_elem?-set_self s.device.rcv_bufs i freed,
    get_elem?-set_ne s.device.rcv_bufs (length st) i freed,
  );
  stored = ground (
    arith,
    IsStored-set_slots s.driver.buf_lens s.device.rcv_bufs st (length st) freed,
    IsStored-set_lens s.driver.buf_lens (set s.device.rcv_bufs (length st) freed) st (length st)
        (length b - uncopied),
  );
}

read_takes :
    (s : System) (st : Stack) (b : Bytes) (uncopied : ℕ)
    → Represents s (b ∷ st)
    → uncopied ≤ length b
    → step delivers up s (read true uncopied)
      ≡ ok (
        taken s b (length st) uncopied,
        replied (pos (length b - uncopied)) (take (length b - uncopied) b),
      )
unfolding step Driver.read_submit Driver.read_finish Driver.inbuf_cb Device.handle_inbuf
read_takes s st [] uncopied rep le = absurd (omega (arith, rep.stored.2))
read_takes s st (c ∷ b) uncopied rep le =
    ground (arith, take-length (c ∷ b), AreBelow-is_in s.driver.allocations s.driver.freed rep.heap)

pub read-Represents :
    (s : System) (st : Stack) (allocated : Bool) (uncopied : ℕ)
    → Represents s st
    → IsPossible (read allocated uncopied) st
    → (s' : System) × (step delivers up s (read allocated uncopied)
        ≡ ok (s', (spec st (read allocated uncopied)).1))
      × Represents s' (spec st (read allocated uncopied)).0
unfolding spec
read-Represents s [] allocated uncopied rep possible =
    (s, unfold step Driver.read_submit in ground arith, rep)
read-Represents s (b ∷ st) false uncopied rep possible =
    (s, unfold step Driver.read_submit in ground arith, rep)
read-Represents s (b ∷ st) true uncopied rep possible = (
  taken s b (length st) uncopied,
  read_takes s st b uncopied rep possible,
  taken-Represents s st b uncopied rep,
)

-- One call on a system that holds a stack: it does not fault, its reply is the stack's, and the
-- system holds the stack after it.
pub step-Represents :
    (s : System) (st : Stack) (c : Command)
    → Represents s st
    → IsPossible c st
    → (s' : System) × (step delivers up s c ≡ ok (s', (spec st c).1)) × Represents s' (spec st c).0
step-Represents s st (write user allocated uncopied) rep possible =
    write-Represents s st user allocated uncopied rep possible
step-Represents s st (read allocated uncopied) rep possible =
    read-Represents s st allocated uncopied rep possible

-- On a transport that delivers kicks: any calls, of which each `write` copies a byte at least, from
-- any system that holds a stack. No call faults or waits for ever, every reply is the bounded
-- stack's, and the system holds the stack after them.
pub run-Represents :
    (s : System) (st : Stack) (cs : List Command)
    → Represents s st
    → ArePossible cs st
    → (s' : System) × (run delivers up s cs ≡ ok (s', (spec_run st cs).1))
      × Represents s' (spec_run st cs).0
unfolding run spec_run
run-Represents s st [] rep possible = (s, refl, rep)
run-Represents s st (c ∷ cs) rep possible =
    let (s', now, rep') = step-Represents s st c rep possible.0 in
    let (s'', later, rep'') = run-Represents s' (spec st c).0 cs rep' possible.1 in
    (s'', rw (now, later), rep'')

replicate_unset : (n i : ℕ) (b : Bytes) → get_elem? (replicate n unset) i ≢ some (live b)
replicate_unset zero i b e = cc
replicate_unset (suc n) zero b e = cc
replicate_unset (suc n) (suc i) b e = replicate_unset n i b e

pub boot-Represents : Represents boot []
unfolding boot Driver.probed Device.realize
boot-Represents = record {
  lens_size = length-replicate {A = ℕ} 1024 0;
  slots_size = length-replicate 1024 unset;
  buffers_eq = refl;
  count_eq = refl;
  fits = omega arith;
  heap = tt;
  stored = tt;
  spare = λ i b h e. replicate_unset 1024 i b e;
}
