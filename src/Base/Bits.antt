-- ===== src/Base/Bits.antt =====
-- Machine words as native numbers, and the bits of `|`, `&` and `1 << n` at variables.
use Prim.Native.Nat.{ℕ, zero, suc, ◌+◌, ◌-◌, ◌*◌, ◌/◌, ◌%◌, ◌^◌, ◌≤◌, ◌<◌, min, max}
use Prim.Native.Nat.{bit_and, bit_or, digits, bitwise, bit_and-bitwise, bit_or-bitwise}
use mathlib.Core.Path.{◌≡◌, refl, ap, ◌∙◌}
use mathlib.Core.Logic.{◌≢◌}
use native.Mathlib.Nat.{
  le_refl, pow-suc, mul_comm, mod-eq-sub-mul-div, mul-div-le, div-div-eq-div-mul,
}
use native.Mathlib.Decide.{dec_lt}
use native.Mathlib.Omega.{arith}

abbrev pub u8 : ℕ → ℕ
u8 n = n % 256

abbrev pub u16 : ℕ → ℕ
u16 n = n % 65536

abbrev pub u32 : ℕ → ℕ
u32 n = n % 4294967296

abbrev pub u64 : ℕ → ℕ
u64 n = n % 18446744073709551616

-- Bit `n` of `x`, as 0 or 1.
abbrev pub test_bit : ℕ → ℕ → ℕ
test_bit zero x = x % 2
test_bit (suc n) x = test_bit n (x / 2)

-- `bit_or` and `bit_and` stand for a recursion on binary digits with rounds to spare. A round more
-- than the first operand needs changes nothing.
module _ (last : ℕ → ℕ) (op : ℕ → ℕ → ℕ) where
  one_round_more :
      (rounds x y : ℕ) → x ≤ rounds → digits last op (suc rounds) x y ≡ digits last op rounds x y
  one_round_more zero zero y enough = refl
  one_round_more zero (suc x) y enough = absurd (omega arith)
  one_round_more (suc rounds) zero y enough = refl
  one_round_more (suc rounds) (suc x) y enough =
      omega (arith, one_round_more rounds (suc x / 2) (y / 2) (omega arith))

  settled : (rounds x y : ℕ) → x ≤ rounds → digits last op rounds x y ≡ bitwise last op x y
  settled zero zero y enough = refl
  settled zero (suc x) y enough = absurd (omega arith)
  settled (suc rounds) x y enough = elim (dec_lt rounds x) [
    | yes just ↦ let e : x ≡ suc rounds = omega arith in rw e
    | no spare ↦ one_round_more rounds x y (omega arith) ∙ settled rounds x y (omega arith)
  ]

  lowest :
      (x y : ℕ)
      → bitwise last op (suc x) y ≡ op (suc x % 2) (y % 2) + 2 * bitwise last op (suc x / 2) (y / 2)
  lowest x y = omega (arith, settled x (suc x / 2) (y / 2) (omega arith))

-- The lowest digit of each operation, and the digits above it.
pub bit_or_step : (x y : ℕ) → bit_or x y ≡ max (x % 2) (y % 2) + 2 * bit_or (x / 2) (y / 2)
bit_or_step zero y = simp bit_or-bitwise (omega arith)
bit_or_step (suc x) y = let e = lowest (λ d. d) max x y in simp bit_or-bitwise e

pub bit_and_step : (x y : ℕ) → bit_and x y ≡ min (x % 2) (y % 2) + 2 * bit_and (x / 2) (y / 2)
bit_and_step zero y = simp bit_and-bitwise (omega arith)
bit_and_step (suc x) y = let e = lowest (λ d. 0) min x y in simp bit_and-bitwise e

pub test_bit-bit_or : (n a b : ℕ) → test_bit n (bit_or a b) ≡ max (test_bit n a) (test_bit n b)
test_bit-bit_or zero a b = omega (arith, bit_or_step a b)
test_bit-bit_or (suc n) a b =
    let halved : bit_or a b / 2 ≡ bit_or (a / 2) (b / 2) = omega (arith, bit_or_step a b) in
    rw halved (test_bit-bit_or n (a / 2) (b / 2))

pub test_bit-bit_and : (n a b : ℕ) → test_bit n (bit_and a b) ≡ min (test_bit n a) (test_bit n b)
test_bit-bit_and zero a b = omega (arith, bit_and_step a b)
test_bit-bit_and (suc n) a b =
    let halved : bit_and a b / 2 ≡ bit_and (a / 2) (b / 2) = omega (arith, bit_and_step a b) in
    rw halved (test_bit-bit_and n (a / 2) (b / 2))

pub test_bit-zero : (n : ℕ) → test_bit n 0 ≡ 0
test_bit-zero zero = refl
test_bit-zero (suc n) = test_bit-zero n

pub test_bit-pow_self : (n : ℕ) → test_bit n (2 ^ n) ≡ 1
test_bit-pow_self zero = refl
test_bit-pow_self (suc n) =
    let halved : 2 ^ suc n / 2 ≡ 2 ^ n = omega (arith, pow-suc 2 n) in
    rw halved (test_bit-pow_self n)

pub test_bit-pow_ne : (m n : ℕ) → m ≢ n → test_bit m (2 ^ n) ≡ 0
test_bit-pow_ne zero zero ne = absurd (ne refl)
test_bit-pow_ne zero (suc n) ne = omega (arith, pow-suc 2 n)
test_bit-pow_ne (suc m) zero ne = test_bit-zero m
test_bit-pow_ne (suc m) (suc n) ne =
    let halved : 2 ^ suc n / 2 ≡ 2 ^ n = omega (arith, pow-suc 2 n) in
    rw halved (test_bit-pow_ne m n (λ e. ne (ap suc e)))

pub test_bit-le : (n x : ℕ) → test_bit n x ≤ 1
test_bit-le zero x = omega arith
test_bit-le (suc n) x = test_bit-le n (x / 2)

bit_and-zero : (n a : ℕ) → a ≤ n → bit_and a 0 ≡ 0
bit_and-zero n zero h = refl
bit_and-zero zero (suc a) h = absurd (omega arith)
bit_and-zero (suc n) (suc a) h =
    omega (arith, bit_and_step (suc a) 0, bit_and-zero n (suc a / 2) (omega arith))

pub bit_and-one : (a : ℕ) → bit_and a 1 ≡ a % 2
bit_and-one a = omega (arith, bit_and_step a 1, bit_and-zero (a / 2) (a / 2) (le_refl _))

pub bit_and-three : (a : ℕ) → bit_and a 3 ≡ a % 4
bit_and-three a = omega (arith, bit_and_step a 3, bit_and-one (a / 2))

pub bit_and-fifteen : (a : ℕ) → bit_and a 15 ≡ a % 16
bit_and-fifteen a =
    omega (arith, bit_and_step a 15, bit_and_step (a / 2) 7, bit_and-three (a / 2 / 2))

pub bit_and-sixty_three : (a : ℕ) → bit_and a 63 ≡ a % 64
bit_and-sixty_three a =
    omega (arith, bit_and_step a 63, bit_and_step (a / 2) 31, bit_and-fifteen (a / 2 / 2))

-- The low byte.
pub bit_and-byte : (a : ℕ) → bit_and a 255 ≡ a % 256
bit_and-byte a =
    omega (arith, bit_and_step a 255, bit_and_step (a / 2) 127, bit_and-sixty_three (a / 2 / 2))

pub bit_and-1023 : (a : ℕ) → bit_and a 1023 ≡ a % 1024
bit_and-1023 a =
    omega (arith, bit_and_step a 1023, bit_and_step (a / 2) 511, bit_and-byte (a / 2 / 2))

-- The two high bits of a byte.
pub bit_and-two_high : (a : ℕ) → a < 256 → bit_and a 0xc0 ≡ a / 64 * 64
bit_and-two_high a h = omega (
  arith,
  bit_and_step a 192,
  bit_and_step (a / 2) 96,
  bit_and_step (a / 2 / 2) 48,
  bit_and_step (a / 2 / 2 / 2) 24,
  bit_and_step (a / 2 / 2 / 2 / 2) 12,
  bit_and_step (a / 2 / 2 / 2 / 2 / 2) 6,
  bit_and-three (a / 2 / 2 / 2 / 2 / 2 / 2),
)

half_mod : (x p : ℕ) → (x % (2 * p)) / 2 ≡ (x / 2) % p
half_mod x p = omega (
  arith,
  mod-eq-sub-mul-div x (2 * p),
  mod-eq-sub-mul-div (x / 2) p,
  ap (λ (t : ℕ). p * t) (div-div-eq-div-mul x 2 p),
)

mod_even : (x p : ℕ) → (x % (2 * p)) % 2 ≡ x % 2
mod_even x p = omega (arith, mod-eq-sub-mul-div x (2 * p), mul-div-le x (2 * p))

-- The low bits survive a truncation.
pub test_bit-mod : (m k x : ℕ) → m < k → test_bit m (x % 2 ^ k) ≡ test_bit m x
test_bit-mod m zero x h = absurd (omega arith)
test_bit-mod zero (suc k) x h = rw (pow-suc 2 k, mul_comm (2 ^ k) 2) (mod_even x (2 ^ k))
test_bit-mod (suc m) (suc k) x h =
    rw (pow-suc 2 k, mul_comm (2 ^ k) 2, half_mod x (2 ^ k))
      (test_bit-mod m k (x / 2) (omega arith))

bit_or-zero : (n a : ℕ) → a ≤ n → bit_or a 0 ≡ a
bit_or-zero n zero h = refl
bit_or-zero zero (suc a) h = absurd (omega arith)
bit_or-zero (suc n) (suc a) h =
    omega (arith, bit_or_step (suc a) 0, bit_or-zero n (suc a / 2) (omega arith))

zero-bit_or : (b : ℕ) → bit_or 0 b ≡ b
zero-bit_or b = bit_or-bitwise 0 b

shifted : (q k : ℕ) → q * 2 ^ suc k ≡ q * 2 ^ k * 2
shifted q k = omega (arith, ap (λ (t : ℕ). q * t) (pow-suc 2 k))

-- Setting a bit adds it where it is clear.
pub bit_or-pow : (n v : ℕ) → bit_or v (2 ^ n) ≡ v + (1 - test_bit n v) * 2 ^ n
bit_or-pow zero v = omega (arith, bit_or_step v 1, bit_or-zero (v / 2) (v / 2) (le_refl _))
bit_or-pow (suc n) v =
    let halved : 2 ^ suc n / 2 ≡ 2 ^ n = omega (arith, pow-suc 2 n) in
    let even : 2 ^ suc n % 2 ≡ 0 = omega (arith, pow-suc 2 n) in
    let rest = bit_or-pow n (v / 2) in
    let step = bit_or_step v (2 ^ suc n) in
    let high = shifted (1 - test_bit n (v / 2)) n in
    omega (arith, step, rest, high, even, ap (bit_or (v / 2)) halved)

-- `r | (q << k)` is a sum when `r` has no more than `k` bits.
pub bit_or-above : (k q r : ℕ) → r < 2 ^ k → bit_or r (q * 2 ^ k) ≡ r + q * 2 ^ k
bit_or-above zero q r h =
    let empty : r ≡ 0 = omega arith in rw (empty, zero-bit_or (q * 1)) (omega arith)
bit_or-above (suc k) q r h =
    let rest = bit_or-above k q (r / 2) (omega (arith, pow-suc 2 k)) in
    let halved : q * 2 ^ k * 2 / 2 ≡ q * 2 ^ k = omega arith in
    rw (shifted q k)
      (omega (arith, bit_or_step r (q * 2 ^ k * 2), rest, ap (bit_or (r / 2)) halved))

-- The bits of a complement within `k` bits.
pub test_bit-complement :
    (b k x : ℕ) → b < k → x < 2 ^ k → test_bit b (2 ^ k - 1 - x) ≡ 1 - test_bit b x
test_bit-complement b zero x h lt = absurd (omega arith)
test_bit-complement zero (suc k) x h lt = omega (arith, pow-suc 2 k)
test_bit-complement (suc b) (suc k) x h lt =
    let halved : (2 ^ suc k - 1 - x) / 2 ≡ 2 ^ k - 1 - x / 2 = omega (arith, pow-suc 2 k) in
    rw halved (test_bit-complement b k (x / 2) (omega arith) (omega (arith, pow-suc 2 k)))
