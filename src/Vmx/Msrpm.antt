-- ===== src/Vmx/Msrpm.antt =====
-- vmx_mod/vmx.c: the permission map of the model-specific registers, two bits a register.
pub mod Layout
pub mod Intercepts
pub mod Ops
use virt_learn_program.Base.{
  ℕ, zero, suc, ◌+◌, ◌-◌, ◌*◌, ◌/◌, ◌%◌, ◌<◌, ◌≡◌, ◌≢◌, Bool, true, false, ltb, leb, ◌==◌, ◌||◌,
  if◌then◌else◌, List, [], ◌∷◌, get_elem?, set, u8, u32, bit_and, test_bit, Outcome, ok, fault,
  out_of_bounds, kernel_bug, expect, ◌>>=◌,
}

abbrev pub msrpm_ranges : List ℕ
msrpm_ranges = 0 ∷ 0xc0000000 ∷ 0xc0010000 ∷ []

abbrev pub msrs_range_size : ℕ
msrs_range_size = 2048

abbrev pub msrs_in_range : ℕ
msrs_in_range = msrs_range_size * 8 / 2

-- The loop of `svm_msrpm_offset` from range number `i` on; `invalid` is MSR_INVALID.
unfoldable pub offset_from : ℕ → ℕ → ℕ → List ℕ → ℕ
offset_from invalid msr i [] = invalid
offset_from invalid msr i (r ∷ rs) =
    let rest = offset_from invalid msr (i + 1) rs in
    if ltb msr r || leb (u32 (r + msrs_in_range)) msr
    then rest
    else (u32 (msr - r) / 4 + i * msrs_range_size) / 4

unfoldable pub svm_msrpm_offset : ℕ → ℕ → ℕ
unfolding offset_from
svm_msrpm_offset invalid msr = offset_from invalid msr 0 msrpm_ranges

-- `set_bit` and `clear_bit` of the kernel on an unsigned long.
pub record BitOps : Type 0 where
  pub set_bit : ℕ → ℕ → ℕ
  pub clear_bit : ℕ → ℕ → ℕ
  pub set_bit_self : (n x : ℕ) → n < 64 → test_bit n (set_bit n x) ≡ 1
  pub set_bit_ne : (m n x : ℕ) → n < 64 → m ≢ n → test_bit m (set_bit n x) ≡ test_bit m x
  pub clear_bit_self : (n x : ℕ) → n < 64 → test_bit n (clear_bit n x) ≡ 0
  pub clear_bit_ne : (m n x : ℕ) → n < 64 → m ≢ n → test_bit m (clear_bit n x) ≡ test_bit m x

module _ (ops : BitOps) where
  open ops use {set_bit, clear_bit}

  -- `allowed ? clear_bit(n, &tmp) : set_bit(n, &tmp)`.
  unfoldable pub apply_bit : Bool → ℕ → ℕ → ℕ
  apply_bit allowed n tmp = if allowed then clear_bit n tmp else set_bit n tmp

  -- `set_msr_interception`; it reads the map before it looks at the offset.
  unfoldable pub set_msr_interception : ℕ → List ℕ → ℕ → Bool → Bool → Outcome (List ℕ)
  unfolding apply_bit
  set_msr_interception invalid msrpm msr read write =
      let offset = svm_msrpm_offset invalid msr in
      let bit_read = u8 (2 * bit_and msr 0x0f) in
      let bit_write = u8 (2 * bit_and msr 0x0f + 1) in
      expect out_of_bounds (get_elem? msrpm offset) >>= λ tmp.
      if offset == invalid
      then fault kernel_bug
      else ok (set msrpm offset (u32 (apply_bit write bit_write (apply_bit read bit_read tmp))))
