-- ===== src/Vm/Cpuid/Plain.antt =====
-- What the loop over one-entry leaves leaves in the table.
use virt_learn_program.Base.{
  u32, leb, false, true, take-suc-set, ap, ◌∙◌, take-set, Bool, inr, inl, ℕ, zero, suc, ◌+◌, ◌≤◌,
  ◌<◌, ◌≡◌, refl, arith, some, none, List, [], ◌∷◌, ◌++◌, map, length-set, set, take,
  get_elem?-in_range, Bool-cases, if◌then◌else◌,
}
use virt_learn_program.Vm.Cpuid.{Regs, Entry, Cpu, Table, filled, entry_of, is_zero, plain, leaves}
use virt_learn_program.Vm.Cpuid.Bounds.{IsTable}
use native.Mathlib.Numerals.{add-one}
use mathlib.Core.List.{append-nil, append_assoc, map-append}

-- The leaf of an entry and its registers.
abbrev pub view : Entry → ℕ × Regs
view e = (e.function, e.regs)

-- The entries that count.
abbrev pub views : Table → List (ℕ × Regs)
views t = map view (take t.cpuid_i t.entries)

-- The `n` leaves from leaf `i` on whose registers are not all zero, in their order.
unfoldable pub nonzero : (ℕ → Regs) → ℕ → ℕ → List (ℕ × Regs)
nonzero q zero i = []
nonzero q (suc n) i =
    let rest = nonzero q n (i + 1) in if is_zero (q i) then rest else (i, q i) ∷ rest

joined {ℓ} :
    {A : Type ℓ} (b : Bool) (xs : List A) (x : A)
    → (if b then [] else x ∷ []) ++ xs ≡ (if b then xs else x ∷ xs)
joined true xs x = refl
joined false xs x = refl

next_leaf : (i : ℕ) → i < 4294967295 → u32 (i + 1) ≡ i + 1
next_leaf i h = omega arith

module _ (cpu : Cpu) (q : ℕ → Regs) where
  -- One leaf, when the table has a free place.
  plain-views :
      (i : ℕ) (t : Table)
      → cpu.leaf i ≡ some (q i)
      → IsTable t
      → t.cpuid_i < 100
      → (t' : Table) × (plain cpu i t ≡ filled t')
        × IsTable t'
        × (t'.cpuid_i ≤ t.cpuid_i + 1)
        × (views t' ≡ views t ++ (if is_zero (q i) then [] else (i, q i) ∷ []))
  unfolding plain
  plain-views i t answer h free =
      let (e, found) = get_elem?-in_range t.entries t.cpuid_i (omega arith) in
      let new = entry_of e i none 0 (some (q i)) in
      let entries' = set t.entries t.cpuid_i new in
      elim (Bool-cases (is_zero (q i))) [
        | inl empty ↦ (
          record { entries = entries'; cpuid_i = t.cpuid_i },
          ground (arith, answer),
          omega (arith, length-set t.entries t.cpuid_i new),
          omega arith,
          rw (empty, take-set t.cpuid_i t.entries new, append-nil),
        )
        | inr shown ↦ (
          record { entries = entries'; cpuid_i = t.cpuid_i + 1 },
          ground (arith, answer),
          omega (arith, length-set t.entries t.cpuid_i new),
          omega arith,
          rw (shown, add-one, take-suc-set t.cpuid_i t.entries new (omega arith), map-append),
        )
      ]

  -- The loop over leaves from `i`, of which `n` are left up to the limit, which is below 2 ^ 32 - 1,
  -- with a round more than that. If the processor answers for each of these leaves, and the table
  -- has room for all of them, the loop ends, and adds an entry for each leaf whose registers are not
  -- all zero, in the order of the leaves, and no other.
  pub leaves-views :
      (n fuel limit i : ℕ) (t : Table)
      → limit < 4294967295
      → limit + 1 ≡ i + n
      → n < fuel
      → ((j : ℕ) → i ≤ j → j ≤ limit → cpu.leaf j ≡ some (q j))
      → IsTable t
      → t.cpuid_i + n ≤ 100
      → (t' : Table) × (leaves cpu (plain cpu) fuel limit i t ≡ filled t')
        × IsTable t'
        × (views t' ≡ views t ++ nonzero q n i)
  unfolding leaves nonzero
  leaves-views n zero limit i t last e enough answers h room = absurd (omega arith)
  leaves-views zero (suc fuel) limit i t last e enough answers h room =
      let past : leb i limit ≡ false = ground (arith, e) in (t, rw past refl, h, rw append-nil)
  leaves-views (suc n) (suc fuel) limit i t last e enough answers h room =
      let (t', first, h', grown, seen) =
        plain-views i t (answers i (omega arith) (omega arith)) h (omega arith) in
      let more : leb i limit ≡ true = ground (arith, e) in
      let (t'', others, h'', seen') =
        leaves-views n fuel limit (i + 1) t' last (omega arith) (omega arith)
          (λ j low high. answers j (omega arith) high) h' (omega arith) in
      (
        t'',
        rw (more, first, next_leaf i (omega arith)) others,
        h'',
        seen'
            ∙ rw seen (
                rw append_assoc
                  (ap (◌++◌ (views t)) (joined (is_zero (q i)) (nonzero q n (i + 1)) (i, q i)))),
      )
