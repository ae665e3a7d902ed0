-- ===== src/Guest/Gates/Task.antt =====
-- The descriptor of the task's state.
use virt_learn_program.Base.{
  ◌∙◌, arith, ◌==◌, ◌*◌, ◌%◌, ◌≤◌, ◌^◌, ◌/◌, bit_or, bit_and, ◌≡◌, ◌<◌, ◌+◌, if◌then◌else◌, ℕ, refl,
}
use virt_learn_program.Guest.Memory.{store-inside, store-outside, Memory, store, bytes_at}
use virt_learn_program.Guest.Gates.{set_system_descriptor}

-- The address of a segment that a descriptor of sixteen bytes gives.
abbrev pub base_at : Memory → ℕ → ℕ
base_at mem a = bytes_at mem 3 (a + 2) + 2 ^ 24 * mem (a + 7) + 2 ^ 32 * bytes_at mem 4 (a + 8)

module _ (table selector limit base kind undefined : ℕ) (mem : Memory) where
  abbrev desc : ℕ
  desc = table + bit_and selector 0xfff8

  abbrev mem' : Memory
  mem' = set_system_descriptor table selector limit base kind undefined mem

  abbrev low : ℕ
  low = if limit / 2 ^ 12 == 0 then limit else limit / 2 ^ 12

  -- The memory after each of the stores but the last.
  abbrev mem1 : Memory
  mem1 = store 8 (desc + 4) base mem

  abbrev mem2 : Memory
  mem2 = store 4 (desc + 2) base mem1

  abbrev mem3 : Memory
  mem3 = store 1 (desc + 5) (bit_or kind 0x80) mem2

  abbrev mem4 : Memory
  mem4 = store 2 desc low mem3

  low_base : (b k : ℕ) → b ≡ desc + 2 + k → k < 3 → mem' b ≡ base / 256 ^ k % 256
  unfolding set_system_descriptor
  low_base b k at h =
      store-outside 1 (desc + 6) undefined mem4 b (omega arith)
      ∙ store-outside 2 desc low mem3 b (omega arith)
      ∙ store-outside 1 (desc + 5) (bit_or kind 0x80) mem2 b (omega arith)
      ∙ store-inside 4 (desc + 2) base mem1 b k at (omega arith)

  high_base : (b k : ℕ) → b ≡ desc + 4 + k → 3 ≤ k → k < 8 → mem' b ≡ base / 256 ^ k % 256
  unfolding set_system_descriptor
  high_base b k at h h' =
      store-outside 1 (desc + 6) undefined mem4 b (omega arith)
      ∙ store-outside 2 desc low mem3 b (omega arith)
      ∙ store-outside 1 (desc + 5) (bit_or kind 0x80) mem2 b (omega arith)
      ∙ store-outside 4 (desc + 2) base mem1 b (omega arith)
      ∙ store-inside 8 (desc + 4) base mem b k at (omega arith)

  limit_byte : (b k : ℕ) → b ≡ desc + k → k < 2 → mem' b ≡ low / 256 ^ k % 256
  unfolding set_system_descriptor
  limit_byte b k at h =
      store-outside 1 (desc + 6) undefined mem4 b (omega arith)
      ∙ store-inside 2 desc low mem3 b k at (omega arith)

  kind_byte : mem' (desc + 5) ≡ bit_or kind 0x80 % 256
  unfolding set_system_descriptor
  kind_byte =
      store-outside 1 (desc + 6) undefined mem4 (desc + 5) (omega arith)
      ∙ store-outside 2 desc low mem3 (desc + 5) (omega arith)
      ∙ store-inside 1 (desc + 5) (bit_or kind 0x80) mem2 (desc + 5) 0 (omega arith) (omega arith)
      ∙ omega arith

  -- For a base anywhere in the 64-bit address space and a limit below 4096, the descriptor gives
  -- the whole base, its low sixteen bits of the limit are the limit, and its type has the present
  -- bit, whatever the undefined byte is.
  pub set_system_descriptor-base :
      base < 2 ^ 64
      → limit < 4096
      → (base_at mem' desc ≡ base)
        × (bytes_at mem' 2 desc ≡ limit)
        × (mem' (desc + 5) ≡ bit_or kind 0x80 % 256)
  set_system_descriptor-base small short =
      let b2 = low_base (desc + 2) 0 (omega arith) (omega arith) in
      let b3 = low_base (desc + 2 + 1) 1 (omega arith) (omega arith) in
      let b4 = low_base (desc + 2 + 1 + 1) 2 (omega arith) (omega arith) in
      let b7 = high_base (desc + 7) 3 (omega arith) (omega arith) (omega arith) in
      let b8 = high_base (desc + 8) 4 (omega arith) (omega arith) (omega arith) in
      let b9 = high_base (desc + 8 + 1) 5 (omega arith) (omega arith) (omega arith) in
      let b10 = high_base (desc + 8 + 1 + 1) 6 (omega arith) (omega arith) (omega arith) in
      let b11 = high_base (desc + 8 + 1 + 1 + 1) 7 (omega arith) (omega arith) (omega arith) in
      let l0 = limit_byte desc 0 (omega arith) (omega arith) in
      let l1 = limit_byte (desc + 1) 1 refl (omega arith) in
      let same : low ≡ limit = ground arith in
      (omega (arith, b2, b3, b4, b7, b8, b9, b10, b11), omega (arith, l0, l1, same), kind_byte)
