-- ===== src/Guest/Memory.antt =====
-- The memory of the guest program, a byte at each address, and the processor's accesses to it.
use virt_learn_program.Base.{
  refl, lt→ltb, ◌≤◌, le→leb, ◌⊎◌, arith, ◌≡◌, ◌<◌, ℕ, zero, suc, ◌+◌, ◌-◌, ◌*◌, ◌/◌, ◌%◌, ◌^◌, ltb,
  leb, ◌&&◌, if◌then◌else◌, List, [], ◌∷◌,
}

abbrev pub Memory : Type 0
Memory = ℕ → ℕ

-- A `mov` of some bytes from memory, the lowest first.
abbrev pub bytes_at : Memory → ℕ → ℕ → ℕ
bytes_at mem zero a = 0
bytes_at mem (suc n) a = mem a + 256 * bytes_at mem n (a + 1)

unfoldable pub qword_at : Memory → ℕ → ℕ
qword_at mem a = bytes_at mem 8 a

-- A `mov` of some bytes of a value to memory.
abbrev pub store : ℕ → ℕ → ℕ → Memory → Memory
store n a v mem b = if leb a b && ltb b (a + n) then v / 256 ^ (b - a) % 256 else mem b

-- Stores of four bytes, of which each has its address and its value, one after another.
abbrev pub store_all : List (ℕ × ℕ) → Memory → Memory
store_all [] mem = mem
store_all ((a, v) ∷ ss) mem = store_all ss (store 4 a v mem)

-- A byte inside a store, and one outside.
pub store-inside :
    (n a v : ℕ) (mem : Memory) (b k : ℕ) → b ≡ a + k → k < n → store n a v mem b ≡ v / 256 ^ k % 256
store-inside n a v mem b k at inside =
    let offset : a + k - a ≡ k = omega arith in
    rw (at, le→leb a (a + k) (omega arith), lt→ltb (a + k) (a + n) (omega arith), offset)

pub store-outside :
    (n a v : ℕ) (mem : Memory) (b : ℕ) → ((b < a) ⊎ (a + n ≤ b)) → store n a v mem b ≡ mem b
store-outside n a v mem b outside = ground arith

-- Eight bytes as two halves.
pub qword_at-halves :
    (mem : Memory) (a : ℕ) → qword_at mem a ≡ bytes_at mem 4 a + 2 ^ 32 * bytes_at mem 4 (a + 4)
unfolding qword_at
qword_at-halves mem a = let four : a + 1 + 1 + 1 + 1 ≡ a + 4 = omega arith in rw four (omega arith)

pub bytes_at-zero :
    (mem : Memory) (n a : ℕ) → ((b : ℕ) → a ≤ b → b < a + n → mem b ≡ 0) → bytes_at mem n a ≡ 0
bytes_at-zero mem zero a zeros = refl
bytes_at-zero mem (suc n) a zeros = omega (
  arith,
  zeros a (omega arith) (omega arith),
  bytes_at-zero mem n (a + 1) (λ b h h'. zeros b (omega arith) (omega arith)),
)

-- Bytes that are the same in two memories.
pub bytes_at-same :
    (mem mem' : Memory) (n a : ℕ)
    → ((b : ℕ) → a ≤ b → b < a + n → mem b ≡ mem' b)
    → bytes_at mem n a ≡ bytes_at mem' n a
bytes_at-same mem mem' zero a same = refl
bytes_at-same mem mem' (suc n) a same = omega (
  arith,
  same a (omega arith) (omega arith),
  bytes_at-same mem mem' n (a + 1) (λ b h h'. same b (omega arith) (omega arith)),
)

-- What was stored is read back.
pub bytes_at-store_own : (a v : ℕ) (mem : Memory) → bytes_at (store 4 a v mem) 4 a ≡ v % 2 ^ 32
bytes_at-store_own a v mem = omega (
  arith,
  store-inside 4 a v mem a 0 (omega arith) (omega arith),
  store-inside 4 a v mem (a + 1) 1 (omega arith) (omega arith),
  store-inside 4 a v mem (a + 1 + 1) 2 (omega arith) (omega arith),
  store-inside 4 a v mem (a + 1 + 1 + 1) 3 (omega arith) (omega arith),
)
