-- ===== src/Lib.antt =====
-- Programs for learning virtualization, and what is verified of them.
--
-- The repository holds four bodies of C code that share nothing, and a guest program in assembly that
-- the monitor runs; each has a module here. A module
-- holds the definitions, and the modules below it what is proved of them; each Examples module has
-- runs on concrete inputs.
--
-- Base: faults as values, 32-bit and 64-bit words, lists as arrays, and lemmas on them.
--
-- Virtio: a virtio device with a driver in the guest and a device in QEMU.
--   Driver: virtio/virtio_custdev.c, the calls on its proc file (virtio_custdev_read and
--     virtio_custdev_write) and the receive callback. A read waits in its middle, so it is
--     read_submit before the wait, inbuf_cb, and read_finish after it.
--   Device: virtio/virtio-custdev.c, the two queue handlers, realize and unrealize. A slot of
--     rcv_bufs is unset, live or freed.
--   Link: both joined, as calls on the proc file, over a transport: one that delivers kicks, so that a
--     kick runs the device's handler at once, or the module's own custdev_notify, which does not.
--     Link/Spec is the abstract view of the first, a stack of at most 1024 messages; Link/Silent is
--     about the second.
--   Orders: the same parts of a call as steps of their own, of any callers and in any order, with
--     the rings of 256 slots between the halves, the messages that a full ring loses, the callbacks
--     of both queues and the buffers not yet freed. The device runs where a step says so.
--   Kicks: Orders with kicks of the transmit queue that merge, on a transport that delivers them.
--   Module: loading, probing, removal and unloading of the driver, with the structure's owner.
--   Wiring: the handlers and callbacks that both sides give their two queues.
--
-- Vm: vm.c, a monitor on the KVM interface.
--   Args: parse_argv, its size option character by character.
--   Cpuid: vm_init_cpuid, the table of processor identification.
--   Setup: kvm_init and main up to its loop, the memory regions, the start registers, and the route
--     of the interrupt that main registers.
--   Exits: the loop of main over the exits of the virtual processor.
--   Events: wait_eventfd, the loop of a thread that main does not start.
--
-- Guest: asm/, the program that the monitor gives its guest. The screen and the doorbell are where the
--   two meet: each of its stores there is an exit that Vm/Exits handles.
--   Disk: pre_run.S, which finds sectors and loads them through the firmware's calls.
--   Mode: learn.S and page64.S, from the first instruction to long mode. Mode/Processor is what a
--     processor accepts in its control registers, independent of the program.
--   Paging: init_paging of page64.S, store by store. Paging/Walk is how a processor translates an
--     address, independent of the tables, Paging/Pages the list of pages meant to be there, and
--     Paging/Rights the memory meant for the user.
--   Gates: set_interrupt_handler and set_system_descriptor of libs64.S, with the calls in learn.S and
--     the vectors of system_data.h; Gates/Decode is how a processor reads a gate.
--   Entry: user_entry of learn.S, which rings the doorbell.
--   Screen: libs64.S, characters, strings and numbers on the text screen. Screen/Cells says where
--     characters go, Screen/Terminal what a terminal prints of a text, and Screen/Hex what the digits
--     of a number stand for.
--   Handlers: the exception handlers of handler64.S that report and stop, and the two that return.
--   Apic: the print of the local APIC's registers of apic64.S, with the offsets of apic.h, and the
--     routines that switch it on and off.
--   Memory: the bytes of the guest's memory.
--
-- Vfio: vfio.c, which opens a PCI device through its IOMMU group; what is held on each path.
--   Config: what it reads of the device and prints, with print_pci.
--
-- Vmx: vmx_mod/, the pieces of a hypervisor module for AMD's extension and Intel's.
--   Msrpm: svm_msrpm_offset and set_msr_interception of vmx.c.
--   Segment, Config, Guest: segments and their attribute words (vmcs.h), svm_config_init and
--     setup_guest_regs (vmx.c).
--   Intercept: set_intercept and clr_intercept (vmcs.h), svm_init_vmcb (vmx.c).
--   Fields: the accessors of ops.h over an interface of the two instructions.
--   Structures: vmcs_clear, vmcs_load and writes that may fail (ops.h), over a second interface.
--   Translations: the helpers of ops.h that drop cached translations, over an interface.
--   Cpus: vmx_init and vmx_exit of vmx.c, with what they call.
--   Entry: the assembly of __vmx_run_vcpu (vmx.c) as a list of instructions. Entry/Machine executes
--     it; what an entry into the guest does, and what HOST_RIP holds, are parameters. The variable
--     fail is a word of the stack, reached through the stack pointer.
--   Launch: vmx_run and svm_launch (vmx.c) around it; svm_load_vcpu and svm_put_vcpu, which the
--     repository does not have, are parameters.
--   Dump: vmx_dump_cpu (vmx.c) as reads of fields and printed values, statement by statement.
--   Gdt: the macros for segment descriptors and gdt_template (vmcs.h); Gdt/Tss is reload_tss (vmx.c).
--
-- The programs meet their surroundings through arguments: the results of system calls, the kernel's
-- answers, the processor's registers and constants of headers that are not in the repository. Some
-- interfaces state laws: Vmx/Msrpm.BitOps for the kernel's set_bit and clear_bit, which Vmx/Msrpm/Ops
-- fills; Vmx/Fields.Instructions for vmread and vmwrite; Vmx/Structures.Processor for the instructions
-- on control structures; Vmx/Translations.Invalidation for invvpid and invept; Vm/Events.EventFile for
-- an event file; Vm/Setup/Interrupts.Lookup for the kernel's routing table.
--
-- Faults are values (Base/Faults): an access out of bounds, through null, after a free, or of a
-- variable without a value ends a run with the fault. Machine integers wrap where the source's do;
-- numbers that are only stored are not bounded.
--
-- Bounds and fuel: the loops are recursions on lists or on counts that the source fixes before the
-- loop. The one exception in the C code is the loop over subleaves in vm_init_cpuid, which has 200 rounds: it uses
-- up a place of the 100 in each round, or one of at most 64 rounds of leaf 0xd that keep the place.
-- The guest's loop that clears a page has 32 rounds, as many as the page has parts of 128 bytes, and its
-- loops over a string have a round more than the string has bytes. Its loop that loads the program has
-- a round for each 32 sectors.
-- The loops over leaves have a round more than there are numbers of leaves; at a limit of 2 ^ 32 - 1
-- they have no end of their own.
--
-- Not modelled: the contents of the monitor's reports; the start of the event thread, which is commented
-- out in vm.c; the registration tables of QEMU and of the kernel; kicks of the receive queue that are
-- merged into one; of asm/, what the handlers' calls push on the stack, the copy of the system data and the tables in it, which are another
-- author's, the loads of segment registers and descriptor tables, the registers that the handlers
-- overwrite, and the routines of pre_run.S that are one call of the firmware or one port access.
pub mod Base
pub mod Guest
pub mod Vfio
pub mod Virtio
pub mod Vm
pub mod Vmx
