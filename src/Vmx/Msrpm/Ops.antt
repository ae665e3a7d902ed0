-- ===== src/Vmx/Msrpm/Ops.antt =====
-- Bit operations that meet the interface: `|` with a single bit, and a recursion on the digits.
use virt_learn_program.Base.{
  ℕ, zero, suc, ◌+◌, ◌*◌, ◌/◌, ◌%◌, ◌^◌, ◌≡◌, ◌≢◌, refl, arith, ap, bit_or, test_bit,
  test_bit-bit_or, test_bit-pow_self, test_bit-pow_ne, test_bit-le,
}
use virt_learn_program.Vmx.Msrpm.{BitOps}

clear_bit : ℕ → ℕ → ℕ
clear_bit zero x = x / 2 * 2
clear_bit (suc n) x = clear_bit n (x / 2) * 2 + x % 2

clear_bit_self : (n x : ℕ) → test_bit n (clear_bit n x) ≡ 0
unfolding clear_bit
clear_bit_self zero x = omega arith
clear_bit_self (suc n) x =
    let halved : (clear_bit n (x / 2) * 2 + x % 2) / 2 ≡ clear_bit n (x / 2) = omega arith in
    rw halved (clear_bit_self n (x / 2))

clear_bit_ne : (m n x : ℕ) → m ≢ n → test_bit m (clear_bit n x) ≡ test_bit m x
unfolding clear_bit
clear_bit_ne zero zero x ne = absurd (ne refl)
clear_bit_ne (suc m) zero x ne = let halved : x / 2 * 2 / 2 ≡ x / 2 = omega arith in rw halved
clear_bit_ne zero (suc n) x ne = omega arith
clear_bit_ne (suc m) (suc n) x ne =
    let halved : (clear_bit n (x / 2) * 2 + x % 2) / 2 ≡ clear_bit n (x / 2) = omega arith in
    rw halved (clear_bit_ne m n (x / 2) (λ e. ne (ap suc e)))

set_bit : ℕ → ℕ → ℕ
set_bit n x = bit_or x (2 ^ n)

set_bit_self : (n x : ℕ) → test_bit n (set_bit n x) ≡ 1
unfolding set_bit
set_bit_self n x = omega (arith, test_bit-bit_or n x (2 ^ n), test_bit-pow_self n, test_bit-le n x)

set_bit_ne : (m n x : ℕ) → m ≢ n → test_bit m (set_bit n x) ≡ test_bit m x
unfolding set_bit
set_bit_ne m n x ne = omega (arith, test_bit-bit_or m x (2 ^ n), test_bit-pow_ne m n ne)

pub kernel_ops : BitOps
unfolding set_bit clear_bit
kernel_ops = record {
  set_bit = set_bit;
  clear_bit = clear_bit;
  set_bit_self = λ n x h. set_bit_self n x;
  set_bit_ne = λ m n x h ne. set_bit_ne m n x ne;
  clear_bit_self = λ n x h. clear_bit_self n x;
  clear_bit_ne = λ m n x h ne. clear_bit_ne m n x ne;
}
