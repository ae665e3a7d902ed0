-- ===== src/Guest/Screen/Hex.antt =====
-- The digits of the numbers on the screen.
use virt_learn_program.Base.{
  u8, ◌≤◌, ◌++◌, bit_and-fifteen, ◌%◌, ◌^◌, zero, ◌/◌, ◌+◌, ap, ◌==◌, false, ◌-◌, ◌*◌, suc, arith,
  ◌≡◌, ◌∷◌, leb, [], ◌<◌, length, if◌then◌else◌, List, ℕ,
}
use native.Mathlib.Nat.{div-add-mod, div-div-eq-div-mul, pow-suc, mul_comm}
use virt_learn_program.Base.{refl}
use virt_learn_program.Guest.Screen.{
  ℕ, putc, hex_to_char, hex_loop, print_hex_by_byte, get_byte_hex_string, number_character, byte_at,
}
use virt_learn_program.Guest.Screen.Cells.{put_all, AreShown, IsShown}

-- What a digit stands for: `0` to `9`, then `A` to `F`.
abbrev pub digit_of : ℕ → ℕ
digit_of c = if leb b'A' c then c - b'A' + 10 else c - b'0'

-- The number that digits stand for, the first the highest.
abbrev pub number_of : ℕ → List ℕ → ℕ
number_of above [] = above
number_of above (c ∷ cs) = number_of (16 * above + digit_of c) cs

-- The characters that `__print_hex_by_byte` puts.
abbrev pub hex : ℕ → ℕ → List ℕ
hex zero value = []
hex (suc n) value = hex_to_char (value / 2 ^ (4 * n)) ∷ hex n value

pub length-hex : (n value : ℕ) → length (hex n value) ≡ n
length-hex zero value = refl
length-hex (suc n) value = ap suc (length-hex n value)

hex_to_char_lem :
    (d : ℕ)
    → d < 16
    → IsShown (byte_at number_character d) × (digit_of (byte_at number_character d) ≡ d)
hex_to_char_lem d h = ground arith

-- A digit more.
split_digit : (v p : ℕ) → v % (16 * p) ≡ v / p % 16 * p + v % p
split_digit v p =
    let halves : v / p / 16 ≡ v / (16 * p) = rw (mul_comm 16 p) (div-div-eq-div-mul v p 16) in
    let scaled : p * (v / p) ≡ p * (16 * (v / p / 16) + v / p % 16) =
      ap (λ (t : ℕ). p * t) (omega arith) in
    omega
      (arith, div-add-mod v (16 * p), div-add-mod v p, scaled, ap (λ (t : ℕ). 16 * p * t) halves)

sixteen_times : (n : ℕ) → 2 ^ (4 * suc n) ≡ 16 * 2 ^ (4 * n)
sixteen_times n =
    let four : 4 * suc n ≡ suc (suc (suc (suc (4 * n)))) = omega arith in
    rw four (
      omega (
        arith,
        pow-suc 2 (4 * n),
        pow-suc 2 (suc (4 * n)),
        pow-suc 2 (suc (suc (4 * n))),
        pow-suc 2 (suc (suc (suc (4 * n)))),
      ))

number_of-hex_from :
    (n above v : ℕ) → number_of above (hex n v) ≡ above * 2 ^ (4 * n) + v % 2 ^ (4 * n)
unfolding hex_to_char
number_of-hex_from zero above v = omega arith
number_of-hex_from (suc n) above v =
    let d = v / 2 ^ (4 * n) % 16 in
    let rest = number_of-hex_from n (16 * above + d) v in
    let spread : (16 * above + d) * 2 ^ (4 * n) ≡ 16 * above * 2 ^ (4 * n) + d * 2 ^ (4 * n) =
      omega arith in
    rw
      (
        bit_and-fifteen (v / 2 ^ (4 * n)),
        (hex_to_char_lem d (omega arith)).1,
        rest,
        sixteen_times n,
      )
      (omega (arith, spread, split_digit v (2 ^ (4 * n))))

number_of-hex : (n v : ℕ) → number_of 0 (hex n v) ≡ v % 2 ^ (4 * n)
number_of-hex n v = rw (number_of-hex_from n 0 v) (omega arith)

pub hex-AreShown : (n v : ℕ) → AreShown (hex n v)
unfolding hex_to_char
hex-AreShown zero v = tt
hex-AreShown (suc n) v = (
  rw (bit_and-fifteen (v / 2 ^ (4 * n))) ((hex_to_char_lem (v / 2 ^ (4 * n) % 16) (omega arith)).0),
  hex-AreShown n v,
)

hex_loop-put_all : (n v current : ℕ) → n ≤ 16 → hex_loop n v current ≡ put_all (hex n v) current
unfolding hex_loop
hex_loop-put_all zero v current h = refl
hex_loop-put_all (suc n) v current h =
    let shift : u8 (u8 n * 4) % 64 ≡ 4 * n = omega arith in
    rw (
      shift,
      hex_loop-put_all n v (putc (hex_to_char (v / 2 ^ (4 * n))) current).current (omega arith),
    )

pub print_hex_by_byte-put_all :
    (n v current : ℕ) → 0 < n → n ≤ 16 → print_hex_by_byte n v current ≡ put_all (hex n v) current
unfolding print_hex_by_byte
print_hex_by_byte-put_all zero v current pos h = absurd (omega arith)
print_hex_by_byte-put_all (suc n) v current pos h =
    let counted : (suc n == 0) ≡ false = ground arith in
    rw counted (hex_loop-put_all (suc n) v current h)

-- With a count of one to sixteen, as many characters come out, none of them a newline, and the
-- number that they stand for is the value's low half-bytes.
pub print_hex_by_byte-number :
    (n v current : ℕ)
    → 0 < n
    → n ≤ 16
    → (print_hex_by_byte n v current ≡ put_all (hex n v) current)
      × (length (hex n v) ≡ n)
      × AreShown (hex n v)
      × (number_of 0 (hex n v) ≡ v % 2 ^ (4 * n))
print_hex_by_byte-number n v current pos h = (
  print_hex_by_byte-put_all n v current pos h,
  length-hex n v,
  hex-AreShown n v,
  number_of-hex n v,
)

-- The string that is made of a byte is read as that byte.
pub get_byte_hex_string-number :
    (v : ℕ)
    → (cs : List ℕ) × (get_byte_hex_string v ≡ cs ++ 0 ∷ [])
      × (length cs ≡ 2)
      × (number_of 0 cs ≡ v % 256)
unfolding get_byte_hex_string
get_byte_hex_string-number v =
    (hex 2 v, let one : v / 1 ≡ v = omega arith in rw one, refl, number_of-hex 2 v)
