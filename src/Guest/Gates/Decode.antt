-- ===== src/Guest/Gates/Decode.antt =====
-- What the processor reads in a gate.
use virt_learn_program.Base.{zero, suc, refl, ◌≢◌}
use virt_learn_program.Base.{◌≢◌, ◌∙◌, arith, ◌⊎◌, ◌≤◌, ◌/◌, ◌%◌, ◌≡◌, ◌*◌, ◌^◌, ◌<◌, ◌+◌, ℕ}
use virt_learn_program.Guest.Memory.{store-inside, store-outside, Memory, store, bytes_at}
use virt_learn_program.Guest.Gates.{ℕ, set_interrupt_handler}

-- The fields of an interrupt gate in 64-bit mode: the handler's address in three parts, the
-- selector of its code segment, the stack (of the interrupt stack table), the type with the level
-- and the present bit.
pub record Gate : Type 0 where
  pub offset : ℕ
  pub selector : ℕ
  pub stack : ℕ
  pub attributes : ℕ

abbrev pub gate_at : Memory → ℕ → Gate
gate_at mem a = record {
  offset = bytes_at mem 2 a + 2 ^ 16 * bytes_at mem 2 (a + 6) + 2 ^ 32 * bytes_at mem 4 (a + 8);
  selector = bytes_at mem 2 (a + 2);
  stack = mem (a + 4);
  attributes = mem (a + 5);
}

-- A present interrupt gate of the highest level to a handler in the kernel's code, with no stack of
-- its own.
abbrev pub IsGate : ℕ → Gate → Type 0
IsGate handler g =
    (g.offset ≡ handler) × (g.selector ≡ 0x28) × (g.stack ≡ 0) × (g.attributes ≡ 0x8e)

-- A gate hangs on its own bytes.
bytes_at-same :
    (m1 m2 : Memory) (n a : ℕ)
    → ((b : ℕ) → a ≤ b → b < a + n → m1 b ≡ m2 b)
    → bytes_at m1 n a ≡ bytes_at m2 n a
bytes_at-same m1 m2 zero a same = refl
bytes_at-same m1 m2 (suc n) a same = rw (
  same a (omega arith) (omega arith),
  bytes_at-same m1 m2 n (a + 1) (λ b h h'. same b (omega arith) (omega arith)),
)

gate_at-same :
    (m1 m2 : Memory) (a : ℕ)
    → ((b : ℕ) → a ≤ b → b < a + 12 → m1 b ≡ m2 b)
    → gate_at m1 a ≡ gate_at m2 a
gate_at-same m1 m2 a same =
    let part : (n k : ℕ) → k + n ≤ 12 → bytes_at m1 n (a + k) ≡ bytes_at m2 n (a + k) =
      λ n k fits. bytes_at-same m1 m2 n (a + k) (λ b h h'. same b (omega arith) (omega arith)) in
    let p0 = bytes_at-same m1 m2 2 a (λ b h h'. same b (omega arith) (omega arith)) in
    rw (
      p0,
      part 2 6 (omega arith),
      part 4 8 (omega arith),
      part 2 2 (omega arith),
      same (a + 4) (omega arith) (omega arith),
      same (a + 5) (omega arith) (omega arith),
    )

module _ (table vector handler : ℕ) (mem : Memory) where
  abbrev gate : ℕ
  gate = table + 16 * vector

  abbrev mem' : Memory
  mem' = set_interrupt_handler table vector handler mem

  -- The memory after each of the stores but the last.
  abbrev mem1 : Memory
  mem1 = store 8 gate handler mem

  abbrev mem2 : Memory
  mem2 = store 8 (gate + 4) handler mem1

  abbrev mem3 : Memory
  mem3 = store 2 (gate + 2) 0x28 mem2

  abbrev mem4 : Memory
  mem4 = store 2 (gate + 4) 0 mem3

  not_last_two : (b : ℕ) → ((b < gate + 4) ⊎ (gate + 6 ≤ b)) → mem' b ≡ mem3 b
  unfolding set_interrupt_handler
  not_last_two b h =
      store-outside 1 (gate + 5) 0x8e mem4 b (ground arith)
      ∙ store-outside 2 (gate + 4) 0 mem3 b (ground arith)

  low : (b k : ℕ) → b ≡ gate + k → k < 2 → mem' b ≡ handler / 256 ^ k % 256
  low b k at h =
      not_last_two b (omega arith)
      ∙ store-outside 2 (gate + 2) 0x28 mem2 b (omega arith)
      ∙ store-outside 8 (gate + 4) handler mem1 b (omega arith)
      ∙ store-inside 8 gate handler mem b k at (omega arith)

  high : (b k : ℕ) → b ≡ gate + (4 + k) → 2 ≤ k → k < 8 → mem' b ≡ handler / 256 ^ k % 256
  high b k at h h' =
      not_last_two b (omega arith)
      ∙ store-outside 2 (gate + 2) 0x28 mem2 b (omega arith)
      ∙ store-inside 8 (gate + 4) handler mem1 b k (omega arith) h'

  selects : (b k : ℕ) → b ≡ gate + (2 + k) → k < 2 → mem' b ≡ 0x28 / 256 ^ k % 256
  selects b k at h =
      not_last_two b (omega arith) ∙ store-inside 2 (gate + 2) 0x28 mem2 b k (omega arith) h

  no_stack : mem' (gate + 4) ≡ 0
  unfolding set_interrupt_handler
  no_stack =
      store-outside 1 (gate + 5) 0x8e mem4 (gate + 4) (omega arith)
      ∙ store-inside 2 (gate + 4) 0 mem3 (gate + 4) 0 (omega arith) (omega arith)

  typed : mem' (gate + 5) ≡ 0x8e
  unfolding set_interrupt_handler
  typed = store-inside 1 (gate + 5) 0x8e mem4 (gate + 5) 0 (omega arith) (omega arith)

  apart : (b : ℕ) → ((b < gate) ⊎ (gate + 12 ≤ b)) → mem' b ≡ mem b
  unfolding set_interrupt_handler
  apart b h = ground arith

  -- For a handler anywhere in the 64-bit address space, the gate of its vector, as the processor
  -- reads it, has the whole address, the selector of the kernel's code, no stack of its own, and
  -- the type of a present interrupt gate of the highest level; and the gates of the other vectors
  -- are as they were.
  pub set_interrupt_handler-IsGate :
      (other : ℕ)
      → handler < 2 ^ 64
      → other ≢ vector
      → IsGate handler (gate_at mem' (table + 16 * vector))
        × (gate_at mem' (table + 16 * other) ≡ gate_at mem (table + 16 * other))
  set_interrupt_handler-IsGate other small ne =
      let b0 = low gate 0 (omega arith) (omega arith) in
      let b1 = low (gate + 1) 1 refl (omega arith) in
      let b6 = high (gate + 6) 2 refl (omega arith) (omega arith) in
      let b7 = high (gate + 6 + 1) 3 (omega arith) (omega arith) (omega arith) in
      let b8 = high (gate + 8) 4 refl (omega arith) (omega arith) in
      let b9 = high (gate + 8 + 1) 5 (omega arith) (omega arith) (omega arith) in
      let b10 = high (gate + 8 + 1 + 1) 6 (omega arith) (omega arith) (omega arith) in
      let b11 = high (gate + 8 + 1 + 1 + 1) 7 (omega arith) (omega arith) (omega arith) in
      let s0 = selects (gate + 2) 0 refl (omega arith) in
      let s1 = selects (gate + 2 + 1) 1 (omega arith) (omega arith) in
      (
        (omega (arith, b0, b1, b6, b7, b8, b9, b10, b11), omega (arith, s0, s1), no_stack, typed),
        gate_at-same mem' mem (table + 16 * other) (λ b h h'. apart b (omega arith)),
      )
