-- ===== src/Vmx/Msrpm/Layout.antt =====
-- Where a register's two bits stand: range number `i` has 2048 bytes of the map, and register
-- number `k` of the range has bits `2 k` and `2 k + 1` of them.
use virt_learn_program.Base.{
  ◌&&◌, Bool-cases, dec_lt, ℕ, zero, suc, ◌+◌, ◌-◌, ◌*◌, ◌/◌, ◌%◌, ◌<◌, ◌≡◌, ◌⊎◌, inl, inr, refl,
  arith, some, get_elem?, ltb, leb,
}
use virt_learn_program.Vmx.Msrpm.{msrpm_ranges, svm_msrpm_offset}

-- Register `msr` is number `k` of range number `i`.
pub record IsCovered (i k msr : ℕ) : Type 0 where
  pub base : ℕ
  pub range : get_elem? msrpm_ranges i ≡ some base
  pub within : k < 8192
  pub position : msr ≡ base + k

-- The byte of the map that holds a covered register's bits, by the layout, in words of 32 bits.
abbrev pub word_of : ℕ → ℕ → ℕ
word_of i k = (i * 2048 + k / 4) / 4

-- The number of a register's read bit, counted from the start of the map.
abbrev pub bit_address : ℕ → ℕ → ℕ
bit_address i k = i * 16384 + 2 * k

covered-offset :
    (invalid i k base : ℕ)
    → get_elem? msrpm_ranges i ≡ some base
    → k < 8192
    → svm_msrpm_offset invalid (base + k) ≡ word_of i k
unfolding svm_msrpm_offset
covered-offset invalid zero k base e h = ground arith
covered-offset invalid (suc zero) k base e h = ground arith
covered-offset invalid (suc (suc zero)) k base e h = ground arith
covered-offset invalid (suc (suc (suc i))) k base e h = cc

-- The layout puts a covered register's read bit at an even place of its word.
pub word_of-bit_address :
    (i k msr : ℕ) → IsCovered i k msr → 32 * word_of i k + 2 * (msr % 16) ≡ bit_address i k
word_of-bit_address zero k msr c = ground (arith, c)
word_of-bit_address (suc zero) k msr c = ground (arith, c)
word_of-bit_address (suc (suc zero)) k msr c = ground (arith, c)
word_of-bit_address (suc (suc (suc i))) k msr c = absurd (ground (arith, c))

pub word_of-lt : (i k msr : ℕ) → IsCovered i k msr → word_of i k < 1536
word_of-lt zero k msr c = ground (arith, c)
word_of-lt (suc zero) k msr c = ground (arith, c)
word_of-lt (suc (suc zero)) k msr c = ground (arith, c)
word_of-lt (suc (suc (suc i))) k msr c = absurd (ground (arith, c))

-- For register number `k` of range number `i`, the function gives the word of the map that the layout
-- puts the register's bits in.
pub IsCovered-offset :
    (invalid i k msr : ℕ) → IsCovered i k msr → svm_msrpm_offset invalid msr ≡ word_of i k
IsCovered-offset invalid i k msr c =
    rw c.position (covered-offset invalid i k c.base c.range c.within)

-- A register is in one of the three ranges, or its offset is the invalid one.
pub offset-cases :
    (invalid msr : ℕ)
    → (svm_msrpm_offset invalid msr ≡ invalid) ⊎ ((i : ℕ) × (k : ℕ) × IsCovered i k msr)
unfolding svm_msrpm_offset
offset-cases invalid msr = elim (dec_lt msr 8192) [
  | yes low ↦ inr (0, msr, record { base = 0; range = refl; within = low; position = omega arith })
  | no not_low ↦ elim (Bool-cases (leb 0xc0000000 msr && ltb msr 0xc0002000)) [
    | inl mid ↦ inr (
      1,
      msr - 0xc0000000,
      record { base = 0xc0000000; range = refl; within = ground arith; position = ground arith },
    )
    | inr not_mid ↦ elim (Bool-cases (leb 0xc0010000 msr && ltb msr 0xc0012000)) [
      | inl high ↦ inr (
        2,
        msr - 0xc0010000,
        record { base = 0xc0010000; range = refl; within = ground arith; position = ground arith },
      )
      | inr outside ↦ inl (ground arith)
    ]
  ]
]

-- Two registers never share a bit: if their read bits stand at one place, they are one register.
pub bit_address_injective :
    (i k msr i' k' msr' : ℕ)
    → IsCovered i k msr
    → IsCovered i' k' msr'
    → bit_address i k ≡ bit_address i' k'
    → msr ≡ msr'
bit_address_injective i k msr i' k' msr' c c' e =
    let same_range : i ≡ i' = omega arith in
    let same_number : k ≡ k' = omega arith in ground (arith, c, c', same_range, same_number)
