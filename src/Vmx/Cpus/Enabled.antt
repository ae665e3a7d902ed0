-- ===== src/Vmx/Cpus/Enabled.antt =====
-- Which processors are marked as enabled.
use virt_learn_program.Base.{
  ◌∙◌, ℕ, ◌==◌, ◌≡◌, ◌||◌, ◌&&◌, not, refl, arith, Bool, false, List, [], ◌∷◌, pos,
}
use virt_learn_program.Vmx.Cpus.{
  vmx_exit, CpuMask, CpuMask, vmx_hardware_enable, enable_all, vmx_init,
}

abbrev pub is_online : ℕ → List ℕ → Bool
is_online c [] = false
is_online c (d ∷ ds) = c == d || is_online c ds

enable_all-mask :
    (vmxe : ℕ → Bool) (cpus : List ℕ) (mask : CpuMask) (c : ℕ)
    → enable_all vmxe cpus mask c ≡ (mask c || (is_online c cpus && not (vmxe c)))
unfolding enable_all vmx_hardware_enable
enable_all-mask vmxe [] mask c = ground arith
enable_all-mask vmxe (d ∷ ds) mask c =
    enable_all-mask vmxe ds (vmx_hardware_enable vmxe d mask).0 c ∙ ground arith

-- Loading the module marks a processor as enabled exactly when it is online and has the extension
-- not yet switched on. The module loads also when some processor, or every one, reports that it is
-- busy.
pub vmx_init-mask :
    (vmxe : ℕ → Bool) (online : List ℕ)
    → ((c : ℕ) → (vmx_init vmxe online).0 c ≡ (is_online c online && not (vmxe c)))
      × ((vmx_init vmxe online).1 ≡ pos 0)
unfolding vmx_init
vmx_init-mask vmxe online = (λ c. enable_all-mask vmxe online (λ d. false) c, refl)

-- Unloading the module leaves every processor marked as it was.
pub vmx_exit-mask : (cpus : List ℕ) (mask : CpuMask) → vmx_exit cpus mask ≡ mask
unfolding vmx_exit
vmx_exit-mask [] mask = refl
vmx_exit-mask (cpu ∷ cpus) mask = vmx_exit-mask cpus mask
