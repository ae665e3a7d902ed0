-- ===== src/Virtio/Examples.antt =====
-- The custom device on concrete inputs.
use virt_learn_program.Base.{
  none, leb, neg, ◌==◌, if◌then◌else◌, ℕ, ◌≤◌, ◌≡◌, ◌≢◌, ◌↔◌, refl, arith, true, false, some, List,
  [], ◌∷◌, ◌++◌, map, length, take, set, replicate, get_elem?, pos, ok, fault, out_of_bounds,
  use_after_free,
}
use mathlib.Core.List.{reverse}
use virt_learn_program.Virtio.Driver.{Bytes}
use virt_learn_program.Virtio.Device.{
  VirtIoCustdev, live, freed, unset, up, handle_outbuf, handle_inbuf, unrealize,
}
use virt_learn_program.Virtio.Device.Faults.{handle_outbuf_faults_iff, handle_inbuf_top}
use virt_learn_program.Virtio.Module.{
  is_err, Kernel, Loaded, Assigned, assign_virtqueue, null, queue, allocated, custdev_find_vqs,
  virtio_custom_init, virtio_custom_exit,
}
use virt_learn_program.Virtio.Module.Queues.{custdev_find_vqs_succeeds}
use virt_learn_program.Virtio.Module.Unload.{virtio_custom_exit_faults_iff}
use virt_learn_program.Virtio.Orders.{
  Halves, Action, writes, stores, submits, fills, store_next, fill_next, post, send as add_outbuf,
  act, acts, fresh,
}
use virt_learn_program.Virtio.Wiring.{
  handle_outbuf as store_handler, handle_inbuf as hand_back_handler, outbuf_cb, inbuf_cb, kicked,
  notified, assign_virtqueue-kicked,
}
use virt_learn_program.Virtio.Device
use virt_learn_program.Virtio.Driver
use virt_learn_program.Virtio.Link.{System, delivers, Command, write, read, replied, run, boot}
use virt_learn_program.Virtio.Link.Spec.{ArePossible, spec, spec_run}
use virt_learn_program.Virtio.Link.Stored.{Represents}
use virt_learn_program.Virtio.Link.Refine.{run-Represents, boot-Represents}
use virt_learn_program.Virtio.Link.Sessions.{send, receive, sent, got, last_in_first_out}
use virt_learn_program.Virtio.Link.Teardown.{unrealize-frees_all}

abbrev hello : Bytes
hello = 104 ∷ 105 ∷ []

abbrev world : Bytes
world = 119 ∷ []

-- Two writes, of which the second loses a byte, and three reads.
abbrev talk : List Command
talk = write hello true 0 ∷ write hello true 1 ∷ read true 0 ∷ read false 0 ∷ read true 0 ∷ []

talk_possible : ArePossible talk []
unfolding spec
talk_possible = omega arith

talk_replies :
    (spec_run [] talk).1
    ≡ replied (pos 2) []
      ∷ replied (pos 1) []
      ∷ replied (pos 1) (104 ∷ [])
      ∷ replied (neg 12) []
      ∷ replied (pos 2) hello
      ∷ []
unfolding spec_run spec
talk_replies = refl

run-Represents_example :
    (s' : System) × (run delivers up boot talk ≡ ok (s', (spec_run [] talk).1))
    × Represents s' (spec_run [] talk).0
run-Represents_example = run-Represents boot [] talk boot-Represents talk_possible

last_in_first_out_example :
    (s : System) × (run delivers up boot (map send (hello ∷ world ∷ []) ++ receive 2)
      ≡ ok (s, map sent (hello ∷ world ∷ []) ++ map got (reverse (hello ∷ world ∷ []))))
last_in_first_out_example = last_in_first_out (hello ∷ world ∷ []) (omega arith) (omega arith)

unrealize-frees_all_example :
    (d : VirtIoCustdev) × (unrealize boot.device ≡ ok d)
    × ((j : ℕ) (b : Bytes) → get_elem? d.rcv_bufs j ≢ some (live b))
unrealize-frees_all_example = unrealize-frees_all boot [] boot-Represents

-- A device with one message.
abbrev one_held : VirtIoCustdev
one_held = record {
  vm_running = true;
  status = 0;
  rcv_bufs = live hello ∷ replicate 1023 unset;
  rcv_count = 1;
}

-- A device whose guest wrote 1024 messages.
abbrev filled_up : VirtIoCustdev
filled_up = record one_held { rcv_bufs = replicate 1024 (live hello); rcv_count = 1024 }

handle_outbuf_faults_iff_run :
    (handle_outbuf up filled_up (some hello) ≡ fault out_of_bounds) ↔ (1024 ≤ 1024)
handle_outbuf_faults_iff_run = handle_outbuf_faults_iff filled_up hello refl

reads_past_end : handle_inbuf up one_held (some 5) ≡ (
    if leb 5 2
    then ok (record {
      device = record one_held { rcv_bufs = set one_held.rcv_bufs 0 freed; rcv_count = 0 };
      pushed = some (take 5 hello);
    })
    else fault out_of_bounds)
reads_past_end = handle_inbuf_top one_held 5 0 hello refl (omega arith) refl refl

-- A kernel that loads the module, and cannot create the second queue.
abbrev kernel : Kernel
kernel = record {
  kzalloc_ok = true;
  register_device = 0;
  register_driver = 0;
  matches = true;
  vring = λ i. if i == 0 then queue 0 else null;
  proc_create_ok = true;
}

never_err : (j : ℕ) → is_err (kernel.vring j) ≡ false
never_err j = ground arith

custdev_find_vqs_succeeds_run :
    ((custdev_find_vqs kernel 2).0 ≡ pos 0) × (length (custdev_find_vqs kernel 2).1 ≡ 2)
custdev_find_vqs_succeeds_run = custdev_find_vqs_succeeds kernel 2 never_err

abbrev loaded : Loaded
loaded = record { cell = allocated; bound = true; queues = queue 0 ∷ null ∷ []; proc_entry = true }

virtio_custom_exit_faults_iff_example :
    (virtio_custom_exit loaded ≡ fault use_after_free) ↔ (kernel.matches ≡ true)
unfolding virtio_custom_init
virtio_custom_exit_faults_iff_example = virtio_custom_exit_faults_iff kernel loaded refl

-- A read begins before the second message is written, and ends after it was.
abbrev overlapped : List Action
overlapped = writes hello true 0 ∷ stores ∷ submits true ∷ writes world true 0 ∷ fills ∷ []

-- The state that these steps lead to.
abbrev between : Halves
between = record {
  driver = record {
    buffers = 2;
    buf_lens = 2 ∷ 1 ∷ replicate 1022 0;
    read_data = none;
    data_ready = 0;
    status = 0;
    allocations = 1;
    freed = [];
  };
  device = record {
    vm_running = true;
    status = 0;
    rcv_bufs = freed ∷ replicate 1023 unset;
    rcv_count = 0;
  };
  tx = world ∷ [];
  rx = [];
  filled = (0, hello) ∷ [];
  owned = 2;
  used = 1;
  lost = 0;
}

-- Two readers that both see the one message: the device reads before its array for the second.
race_faults :
    acts fresh (writes hello true 0 ∷ stores ∷ submits true ∷ submits true ∷ fills ∷ fills ∷ [])
    ≡ fault out_of_bounds
unfolding acts act store_next fill_next post add_outbuf fresh Driver.probed Driver.write
    Driver.read_submit Device.realize handle_outbuf handle_inbuf
race_faults = refl

-- A kernel that makes every queue under its number.
abbrev numbering : Kernel
numbering = record kernel { vring = λ i. queue i }

assign_virtqueue-kicked_run :
    (a : Assigned) × (assign_virtqueue numbering ≡ (pos 0, some a))
    × (kicked a.vq_tx ≡ some store_handler)
    × (kicked a.vq_rx ≡ some hand_back_handler)
    × (notified a.vq_tx ≡ some outbuf_cb)
    × (notified a.vq_rx ≡ some inbuf_cb)
assign_virtqueue-kicked_run = assign_virtqueue-kicked numbering λ i. refl
