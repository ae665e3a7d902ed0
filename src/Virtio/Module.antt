-- ===== src/Virtio/Module.antt =====
-- virtio/virtio_custdev.c as a kernel module: loading, probing, removal and unloading, and who
-- frees the device structure.
pub mod Unload
pub mod Queues
use virt_learn_program.Base.{
  is_zero, some, none, Option, ℕ, zero, suc, ◌+◌, Bool, true, false, if◌then◌else◌, ◌==◌, not, List,
  [], ◌∷◌, ◌++◌, ℤ, pos, neg, enomem, Outcome, ok, fault, double_free, use_after_free, null_deref,
  ◌>>=◌,
}

-- A `struct virtqueue *`: null, an error pointer, or queue number `i` of the device.
pub data QueuePtr : Type 0 where
  null : QueuePtr
  err_ptr : ℕ → QueuePtr
  queue : ℕ → QueuePtr

-- `IS_ERR`: the null pointer is no error pointer.
abbrev pub is_err : QueuePtr → Bool
is_err (err_ptr e) = true
is_err _ = false

-- `PTR_ERR`, of an error pointer.
abbrev pub ptr_err : QueuePtr → ℤ
ptr_err (err_ptr e) = neg e
ptr_err _ = pos 0

-- The kernel's answers. `vring` is what `vring_create_virtqueue` returns for an index; an error
-- number of 0 is success; `matches` says whether the core binds the driver to the device.
pub record Kernel : Type 0 where
  pub kzalloc_ok : Bool
  pub register_device : ℕ
  pub register_driver : ℕ
  pub matches : Bool
  pub vring : ℕ → QueuePtr
  pub proc_create_ok : Bool

-- The heap cell of `vcdev`, and whether the driver core holds the device and has it bound.
pub data Cell : Type 0 where
  unallocated allocated released : Cell

pub record Loaded : Type 0 where
  pub cell : Cell
  pub bound : Bool
  pub queues : List QueuePtr
  pub proc_entry : Bool

-- `kfree`, and any access through the pointer.
abbrev pub kfree : Cell → Outcome Cell
kfree unallocated = ok unallocated
kfree allocated = ok released
kfree released = fault double_free

abbrev pub touch : Cell → Outcome Cell
touch unallocated = fault null_deref
touch allocated = ok allocated
touch released = fault use_after_free

-- `cd_setup_vq`: what it puts into `err` on a null queue is not returned.
unfoldable pub cd_setup_vq : Kernel → ℕ → QueuePtr
cd_setup_vq k i = k.vring i

-- `custdev_del_vqs`: every queue that is set up is deleted.
unfoldable pub custdev_del_vqs : List QueuePtr → List QueuePtr
custdev_del_vqs [] = []
custdev_del_vqs (vq ∷ vqs) = custdev_del_vqs vqs

-- The loop of `custdev_find_vqs` with `left` queues to go, at index `i`; the queues set up so far
-- stand in `vqs`, and an error deletes them.
unfoldable pub find_from : Kernel → ℕ → ℕ → List QueuePtr → ℤ × List QueuePtr
unfolding cd_setup_vq custdev_del_vqs
find_from k zero i vqs = (pos 0, vqs)
find_from k (suc left) i vqs =
    let vq = cd_setup_vq k i in
    let rest = find_from k left (i + 1) (vqs ++ vq ∷ []) in
    if is_err vq then (ptr_err vq, custdev_del_vqs vqs) else rest

unfoldable pub custdev_find_vqs : Kernel → ℕ → ℤ × List QueuePtr
unfolding find_from
custdev_find_vqs k nvqs = find_from k nvqs 0 []

-- An error path that frees the structure and returns `err`.
abbrev free_and_return : Loaded → ℤ → Outcome (Loaded × ℤ)
free_and_return s err = do c ← kfree s.cell; ok (record s { cell = c }, err)

-- What `virtio_vcust_assign_virtqueue` leaves in the structure.
pub record Assigned : Type 0 where
  pub vq_tx : QueuePtr
  pub vq_rx : QueuePtr

abbrev pub first_two : List QueuePtr → Option Assigned
first_two (tx ∷ rx ∷ vqs) = some (record { vq_tx = tx; vq_rx = rx })
first_two _ = none

-- `virtio_vcust_assign_virtqueue`: its result, and the two queues.
unfoldable pub assign_virtqueue : Kernel → ℤ × Option Assigned
unfolding custdev_find_vqs
assign_virtqueue k =
    let (err, vqs) = custdev_find_vqs k 2 in
    if is_zero err then (pos 0, first_two vqs) else (err, none)

-- `virtio_custdev_probe`, with the call of `virtio_vcust_assign_virtqueue` put in.
unfoldable pub probe : Kernel → Loaded → Outcome (Loaded × ℤ)
unfolding custdev_find_vqs
probe k s =
    let (err, vqs) = custdev_find_vqs k 2 in
    if is_zero err
    then (if k.proc_create_ok
        then ok (record s { bound = true; queues = vqs; proc_entry = true }, pos 0)
        else free_and_return (record s { queues = vqs }) (neg enomem))
    else free_and_return s err

-- `virtio_custdev_remove`.
unfoldable pub remove : Loaded → Outcome Loaded
remove s = do
  c ← touch s.cell
  c' ← kfree c
  ok (record s { cell = c'; bound = false; proc_entry = false })

-- What `register_virtio_driver` does on success: it probes a matching device. A probe's error is
-- not the registration's.
unfoldable pub bind_driver : Kernel → Loaded → Outcome Loaded
unfolding probe
bind_driver k s = if k.matches then (probe k s >>= λ r. ok r.0) else ok s

abbrev pub unloaded : Loaded
unloaded = record { cell = unallocated; bound = false; queues = []; proc_entry = false }

-- `virtio_custom_init`, which returns the state and its result.
unfoldable pub virtio_custom_init : Kernel → Outcome (Loaded × ℤ)
unfolding bind_driver
virtio_custom_init k =
    let s = record unloaded { cell = allocated } in
    if not k.kzalloc_ok
    then ok (unloaded, neg enomem)
    else if not (k.register_device == 0)
    then free_and_return s (neg k.register_device)
    else if not (k.register_driver == 0)
    then (touch s.cell >>= λ c. free_and_return (record s { cell = c }) (neg k.register_driver))
    else do s' ← bind_driver k s; ok (s', pos 0)

-- `unregister_virtio_driver`: the core removes the driver from a device that is bound.
unfoldable pub unbind_driver : Loaded → Outcome Loaded
unfolding remove
unbind_driver s = if s.bound then remove s else ok s

-- `virtio_custom_exit`.
unfoldable pub virtio_custom_exit : Loaded → Outcome Loaded
unfolding unbind_driver
virtio_custom_exit s = do
  s' ← unbind_driver s
  c ← touch s'.cell
  c' ← kfree c
  ok (record s' { cell = c' })
