-- ===== src/Guest/Mode/Registers.antt =====
-- Setting a bit of a control register, and what the processor makes of it.
use virt_learn_program.Base.{
  test_bit-le, test_bit-pow_self, test_bit-pow_ne, ◌^◌, inr, ◌≢◌, ◌∙◌, test_bit-bit_or, refl, inl,
  ℕ, zero, suc, ◌≡◌, ◌<◌, Bool, true, false, Bool-cases, ℕ_discrete, arith,
}
use virt_learn_program.Guest.Mode.{bts}
use virt_learn_program.Guest.Mode.Processor.{is_set, accepts}

pub is_set-bts_self : (n v : ℕ) → is_set n (bts n v) ≡ true
is_set-bts_self n v =
    rw (test_bit-bit_or n v (2 ^ n), test_bit-pow_self n) (ground (arith, test_bit-le n v))

pub is_set-bts_ne : (m n v : ℕ) → m ≢ n → is_set m (bts n v) ≡ is_set m v
is_set-bts_ne m n v other =
    rw (test_bit-bit_or m v (2 ^ n), test_bit-pow_ne m n other) (ground (arith, test_bit-le m v))

-- A bit that is set stays set.
pub is_set-bts : (m n v : ℕ) → is_set m v ≡ true → is_set m (bts n v) ≡ true
is_set-bts m n v h = elim (ℕ_discrete m n) [
  | yes same ↦ rw same (is_set-bts_self n v)
  | no other ↦ is_set-bts_ne m n v other ∙ h
]

module _ (offered : ℕ → Bool) where
  -- Setting a bit that may be set changes nothing of the answer.
  pub accepts-bts :
      (k n v : ℕ) → offered n ≡ true → accepts offered k (bts n v) ≡ accepts offered k v
  accepts-bts zero n v may = refl
  accepts-bts (suc k) n v may = elim (ℕ_discrete k n) [
    | yes same ↦
        let it : offered k ≡ true = rw same may in rw (it, accepts-bts k n v may) (ground arith)
    | no other ↦ rw (is_set-bts_ne k n v other, accepts-bts k n v may) refl
  ]

  -- A bit that is set and may not be is refused.
  pub accepts-refuses :
      (k n v : ℕ) → n < k → is_set n v ≡ true → offered n ≡ false → accepts offered k v ≡ false
  accepts-refuses zero n v h set not = absurd (omega arith)
  accepts-refuses (suc k) n v h set not = elim (ℕ_discrete k n) [
    | yes same ↦
        let here : is_set k v ≡ true = rw same set in
        let it : offered k ≡ false = rw same not in rw (here, it) refl
    | no other ↦ rw (accepts-refuses k n v (omega (arith, other)) set not) (ground arith)
  ]

  pub accepts-is_set :
      (k n v : ℕ) → n < k → accepts offered k v ≡ true → offered n ≡ false → is_set n v ≡ false
  accepts-is_set k n v h ok not = elim (Bool-cases (is_set n v)) [
    | inr clear ↦ clear
    | inl set ↦ let no = accepts-refuses k n v h set not in absurd cc
  ]
