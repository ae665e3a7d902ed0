-- ===== src/Virtio.antt =====
-- The custom virtio device: the guest's driver (virtio/virtio_custdev.c), the device that QEMU
-- provides (virtio/virtio-custdev.c), and the two joined by their queues.
pub mod Driver
pub mod Device
pub mod Module
pub mod Link
pub mod Orders
pub mod Kicks
pub mod Wiring
mod Examples
