-- ===== src/Vmx/Cpus.antt =====
-- vmx_mod/vmx.c: enabling the hardware on every processor.
pub mod Enabled
use virt_learn_program.Base.{
  ℕ, ◌+◌, ◌==◌, leb, ◌&&◌, Bool, true, false, if◌then◌else◌, List, [], ◌∷◌, ℤ, pos, neg, ebusy,
}

-- A `cpumask_t`.
abbrev pub CpuMask : Type 0
CpuMask = ℕ → Bool

abbrev pub add_cpu : ℕ → CpuMask → CpuMask
add_cpu cpu mask c = if c == cpu then true else mask c

-- `vmx_hardware_enable` on one processor; `vmxe` says whether CR4.VMXE is set there already.
unfoldable pub vmx_hardware_enable : (ℕ → Bool) → ℕ → CpuMask → CpuMask × ℤ
vmx_hardware_enable vmxe cpu mask =
    if vmxe cpu then (mask, neg ebusy) else (add_cpu cpu mask, pos 0)

-- `on_each_cpu` over the processors that are online; the results are dropped.
unfoldable pub enable_all : (ℕ → Bool) → List ℕ → CpuMask → CpuMask
enable_all vmxe [] mask = mask
enable_all vmxe (cpu ∷ cpus) mask = enable_all vmxe cpus (vmx_hardware_enable vmxe cpu mask).0

-- `vmx_init`: the mask, which starts empty, and the module's result.
unfoldable pub vmx_init : (ℕ → Bool) → List ℕ → CpuMask × ℤ
unfolding enable_all
vmx_init vmxe online = (enable_all vmxe online (λ c. false), pos 0)

-- `vmx_hardware_disable`, which does nothing, and `vmx_exit`, which calls it on every processor.
unfoldable pub vmx_hardware_disable : CpuMask → CpuMask × ℤ
vmx_hardware_disable mask = (mask, pos 0)

unfoldable pub vmx_exit : List ℕ → CpuMask → CpuMask
unfolding vmx_hardware_disable
vmx_exit [] mask = mask
vmx_exit (cpu ∷ cpus) mask = vmx_exit cpus (vmx_hardware_disable mask).0
