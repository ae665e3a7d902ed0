-- ===== src/Guest/Paging/Lookup.antt =====
-- What an entry of the tables holds, read off the list of stores.
use virt_learn_program.Base.{ap, ◌∙◌, ◌||◌, [], ◌∷◌, refl}
use virt_learn_program.Base.{
  true, ℕ_discrete, arith, ◌==◌, ◌<◌, ◌*◌, ◌≤◌, ◌^◌, if◌then◌else◌, false, ◌≡◌, ◌+◌, ◌%◌, Bool, ℕ,
  List,
}
use virt_learn_program.Guest.Memory.{
  bytes_at-store_own, Memory, store, store_all, bytes_at, qword_at, bytes_at-zero, qword_at-halves,
  store-outside,
}

-- The four bytes at an address after some stores, if the stores and the address are aligned.
abbrev pub lookup : List (ℕ × ℕ) → ℕ → ℕ → ℕ
lookup [] b before = before
lookup ((a, v) ∷ ss) b before = lookup ss b (if a == b then v % 2 ^ 32 else before)

abbrev pub AreAligned : List (ℕ × ℕ) → Type 0
AreAligned [] = Unit
AreAligned ((a, v) ∷ ss) = (a % 4 ≡ 0) × AreAligned ss

abbrev pub has_key : ℕ → List (ℕ × ℕ) → Bool
has_key b [] = false
has_key b ((a, v) ∷ ss) = a == b || has_key b ss

pub lookup-missing :
    (ss : List (ℕ × ℕ)) (b before : ℕ) → has_key b ss ≡ false → lookup ss b before ≡ before
lookup-missing [] b before h = refl
lookup-missing ((a, v) ∷ ss) b before h =
    let other : (a == b) ≡ false = ground (arith, h) in
    let rest : has_key b ss ≡ false = ground (arith, h) in
    rw other (lookup-missing ss b before rest)

one_store :
    (a v b : ℕ) (mem : Memory)
    → a % 4 ≡ 0
    → b % 4 ≡ 0
    → bytes_at (store 4 a v mem) 4 b ≡ (if a == b then v % 2 ^ 32 else bytes_at mem 4 b)
one_store a v b mem ha hb = elim (ℕ_discrete a b) [
  | yes same ↦
      let hit : (a == b) ≡ true = ground (arith, same) in
      rw (hit, same) (bytes_at-store_own b v mem)
  | no other ↦
      let miss : (a == b) ≡ false = ground (arith, other) in
      rw (
        miss,
        store-outside 4 a v mem b (omega arith),
        store-outside 4 a v mem (b + 1) (omega arith),
        store-outside 4 a v mem (b + 1 + 1) (omega arith),
        store-outside 4 a v mem (b + 1 + 1 + 1) (omega arith),
      )
]

bytes_at-lookup :
    (ss : List (ℕ × ℕ)) (b : ℕ) (mem : Memory)
    → AreAligned ss
    → b % 4 ≡ 0
    → bytes_at (store_all ss mem) 4 b ≡ lookup ss b (bytes_at mem 4 b)
bytes_at-lookup [] b mem h hb = refl
bytes_at-lookup ((a, v) ∷ ss) b mem h hb =
    bytes_at-lookup ss b (store 4 a v mem) h.1 hb ∙ ap (lookup ss b) (one_store a v b mem h.0 hb)

-- An entry, where the memory was zero before the stores.
abbrev pub entry_of : List (ℕ × ℕ) → ℕ → ℕ
entry_of ss a = lookup ss a 0 + 2 ^ 32 * lookup ss (a + 4) 0

pub qword_at-entry_of :
    (ss : List (ℕ × ℕ)) (a : ℕ) (mem : Memory)
    → AreAligned ss
    → a % 8 ≡ 0
    → ((b : ℕ) → a ≤ b → b < a + 8 → mem b ≡ 0)
    → qword_at (store_all ss mem) a ≡ entry_of ss a
qword_at-entry_of ss a mem h ha zeros =
    let low : bytes_at mem 4 a ≡ 0 = bytes_at-zero mem 4 a (λ b g g'. zeros b g (omega arith)) in
    let high : bytes_at mem 4 (a + 4) ≡ 0 =
      bytes_at-zero mem 4 (a + 4) (λ b g g'. zeros b (omega arith) (omega arith)) in
    let e1 = bytes_at-lookup ss a mem h (omega arith) ∙ ap (lookup ss a) low in
    let e2 = bytes_at-lookup ss (a + 4) mem h (omega arith) ∙ ap (lookup ss (a + 4)) high in
    omega (arith, qword_at-halves (store_all ss mem) a, e1, e2)
