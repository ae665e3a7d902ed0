-- ===== src/Virtio/Module/Unload.antt =====
-- Who frees the device structure: the probe's error path and the removal do, and so do the
-- initialisation and the exit.
use virt_learn_program.Base.{◌≡◌, ◌↔◌, arith, true, pos, ok, fault, use_after_free}
use virt_learn_program.Virtio.Module.{Kernel, Loaded, virtio_custom_init, virtio_custom_exit}

-- After a successful load, unloading touches freed memory exactly when the driver core matched the
-- driver to the device, whether the probe then succeeded or failed.
pub virtio_custom_exit_faults_iff :
    (k : Kernel) (s : Loaded)
    → virtio_custom_init k ≡ ok (s, pos 0)
    → (virtio_custom_exit s ≡ fault use_after_free) ↔ (k.matches ≡ true)
unfolding virtio_custom_init virtio_custom_exit
virtio_custom_exit_faults_iff k s e = ground arith
