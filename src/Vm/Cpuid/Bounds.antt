-- ===== src/Vm/Cpuid/Bounds.antt =====
-- Filling the table stays inside it, and ends.
use virt_learn_program.Base.{
  u32, leb, bit_and, length-replicate, false, true, replicate, Bool, ◌||◌, ◌&&◌, Bool-cases, ◌==◌,
  if◌then◌else◌, ℕ, zero, suc, ◌+◌, ◌-◌, ◌≤◌, ◌<◌, ◌≡◌, inl, inr, refl, arith, Option, some, none,
  length, length-set, set, get_elem?-in_range,
}
use virt_learn_program.Vm.Cpuid.{
  with_limit, after_subleaf, blank, subleaf_rounds, Regs, Cpu, Table, Fill, filled, full,
  out_of_table, no_limit, unfinished, entry_of, regs_or, with_entry, drop_if_zero, ◌>>=◌, subleaves,
  counted, plain, basic, leaves, leaf_rounds, fill_table,
}

-- The table has its 100 places, and the count is within them.
pub record IsTable (t : Table) : Type 0 where
  pub size : length t.entries ≡ 100
  pub count : t.cpuid_i ≤ 100

-- It ends with a table of that form, or with -1.
abbrev pub Ends : Fill → Type 0
Ends (filled t) = IsTable t
Ends full = Unit
Ends out_of_table = ⊥
Ends no_limit = ⊥
Ends unfinished = ⊥

with_entry-Ends :
    (t : Table) (c i : ℕ) (j : Option ℕ) (flags : ℕ) (r : Option Regs) (next : Table → Regs → Fill)
    → c < length t.entries
    → ((t' : Table) (r' : Regs)
        → length t'.entries ≡ length t.entries
        → t'.cpuid_i ≡ t.cpuid_i
        → Ends (next t' r'))
    → Ends (with_entry t c i j flags r next)
with_entry-Ends t c i j flags r next lt rest =
    let (e, found) = get_elem?-in_range t.entries c lt in
    rw (Ends, found)
      (rest (record t { entries = set t.entries c (entry_of e i j flags r) }) (regs_or r e.regs)
        (length-set t.entries c (entry_of e i j flags r)) refl)

-- A test for a full table before a part that needs a free place.
unless_full :
    (t : Table) (f : Fill)
    → IsTable t
    → (t.cpuid_i < 100 → Ends f)
    → Ends (if t.cpuid_i == 100 then full else f)
unless_full t f h room = elim (Bool-cases (t.cpuid_i == 100)) [
  | inl at_end ↦ rw (Ends, at_end) tt
  | inr free ↦ rw (Ends, free) (room (ground arith))
]

if-Ends :
    (b : Bool) (f g : Fill) → (b ≡ true → Ends f) → (b ≡ false → Ends g) → Ends (if b then f else g)
if-Ends true f g on_true on_false = on_true refl
if-Ends false f g on_true on_false = on_false refl

>>=-Ends :
    (f : Fill) (k : Table → Fill) → Ends f → ((t : Table) → IsTable t → Ends (k t)) → Ends (f >>= k)
>>=-Ends (filled t) k h rest = rest t h
>>=-Ends full k h rest = tt
>>=-Ends out_of_table k h rest = h
>>=-Ends no_limit k h rest = h
>>=-Ends unfinished k h rest = h

after_subleaf-Ends :
    (i : ℕ) (same next : Table → Fill) (t : Table) (r : Regs)
    → IsTable t
    → (i ≡ 0xd → Ends (same t))
    → (t.cpuid_i < 100 → Ends (next (record t { cpuid_i = t.cpuid_i + 1 })))
    → Ends (after_subleaf i same next t r)
unfolding after_subleaf
after_subleaf-Ends i same next t r h on_same on_next =
    if-Ends (i == 4 && r.eax == 0) _ _ (λ _. h)
      λ _.
        if-Ends (i == 0xb && bit_and r.ecx 0xff00 == 0) _ _ (λ _. h)
          λ _.
            if-Ends (i == 0x1f && bit_and r.ecx 0xff00 == 0) _ _ (λ _. h)
              λ _.
                if-Ends (i == 0xd && r.eax == 0) _ _ (λ e. on_same (ground arith))
                  λ _. unless_full t _ h on_next

module _ (cpu : Cpu) where
  plain-Ends : (i : ℕ) (t : Table) → IsTable t → Ends (plain cpu i t)
  unfolding plain
  plain-Ends i t h = unless_full t _ h λ free.
      with_entry-Ends (record t { cpuid_i = t.cpuid_i + 1 }) t.cpuid_i i none 0 (cpu.leaf i)
        drop_if_zero (omega arith) λ t' r size count. ground arith

  counted-Ends : (n i j : ℕ) (t : Table) → IsTable t → Ends (counted cpu n i j t)
  unfolding counted
  counted-Ends zero i j t h = h
  counted-Ends (suc n) i j t h = unless_full t _ h λ free.
      with_entry-Ends (record t { cpuid_i = t.cpuid_i + 1 }) t.cpuid_i i (some j)
        cpu.significant_index (cpu.subleaf i j) _ (omega arith)
        λ t' r size count. counted-Ends n i (j + 1) t' (omega arith)

  -- Fuel for the places left and for the subleaves left is enough.
  subleaves-Ends :
      (fuel i j c : ℕ) (t : Table)
      → IsTable t
      → c < 100
      → (i ≡ 0xd → j ≤ 64)
      → 100 - t.cpuid_i + (64 - j) < fuel
      → Ends (subleaves cpu fuel i j c t)
  unfolding subleaves
  subleaves-Ends zero i j c t h lt bound enough = absurd (omega arith)
  subleaves-Ends (suc fuel) i j c t h lt bound enough =
      if-Ends (i == 0xd && j == 64) _ _ (λ _. h)
        λ below.
          if-Ends (i == 0x1f && j == 64) _ _ (λ _. h)
            λ _.
              with_entry-Ends t c i (some j) cpu.significant_index (cpu.subleaf i j)
                (after_subleaf i (subleaves cpu fuel i (j + 1) c)
                  (subleaves cpu fuel i (j + 1) t.cpuid_i))
                (omega arith)
                λ t' r size count.
                  after_subleaf-Ends i (subleaves cpu fuel i (j + 1) c)
                    (subleaves cpu fuel i (j + 1) t.cpuid_i) t' r (omega arith)
                    (λ leaf.
                      subleaves-Ends fuel i (j + 1) c t' (omega arith) lt (ground arith)
                        (ground arith))
                    λ free.
                      subleaves-Ends fuel i (j + 1) t.cpuid_i
                        (record t' { cpuid_i = t'.cpuid_i + 1 }) (omega arith) (omega arith)
                        (ground arith) (omega arith)

  basic-Ends : (i : ℕ) (t : Table) → IsTable t → Ends (basic cpu i t)
  unfolding basic
  basic-Ends i t h =
      if-Ends (i == 4 || i == 0xb || i == 0xd) _ _
        (λ _. unless_full t _ h λ free.
          subleaves-Ends subleaf_rounds i 0 t.cpuid_i (record t { cpuid_i = t.cpuid_i + 1 })
            (omega arith) free (λ _. omega arith) (omega arith))
        λ _.
          if-Ends (i == 0x7 || i == 0x14) _ _
            (λ _. unless_full t _ h λ free.
              with_entry-Ends (record t { cpuid_i = t.cpuid_i + 1 }) t.cpuid_i i (some 0)
                cpu.significant_index (cpu.leaf i) _ (omega arith)
                λ t' r size count. counted-Ends r.eax i 1 t' (omega arith))
            λ _. plain-Ends i t h

  leaves-Ends :
      (body : ℕ → Table → Fill)
      → ((i : ℕ) (t : Table) → IsTable t → Ends (body i t))
      → (fuel limit i : ℕ) (t : Table) → limit < 4294967295
      → limit + 1 - i < fuel
      → IsTable t
      → Ends (leaves cpu body fuel limit i t)
  unfolding leaves
  leaves-Ends body keeps zero limit i t last enough h = absurd (omega arith)
  leaves-Ends body keeps (suc fuel) limit i t last enough h =
      if-Ends (leb i limit) _ _
        (λ more. >>=-Ends (body i t) _ (keeps i t h) λ t' h'.
          leaves-Ends body keeps fuel limit (u32 (i + 1)) t' last (ground (arith, more)) h')
        λ _. h

  rounds_enough : (limit i : ℕ) → limit < 4294967295 → limit + 1 - i < leaf_rounds
  unfolding leaf_rounds
  rounds_enough limit i h = omega arith

  with_limit-Ends :
      (i : ℕ) (r : Regs) (next : ℕ → Fill)
      → cpu.leaf i ≡ some r
      → Ends (next r.eax)
      → Ends (with_limit cpu i next)
  with_limit-Ends i r next e h = rw (Ends, e) h

  -- For every processor that answers the two queries for a limit, each time with one below
  -- 2 ^ 32 - 1, at which the loops have no end of their own, filling the table ends, either with -1
  -- or with a count of at most 100, and no access is outside the 100 entries.
  pub fill_table-Ends :
      (r r' : Regs)
      → cpu.leaf 0 ≡ some r
      → cpu.leaf 0x80000000 ≡ some r'
      → r.eax < 4294967295
      → r'.eax < 4294967295
      → Ends (fill_table cpu)
  unfolding fill_table
  fill_table-Ends r r' e e' small small' = with_limit-Ends 0 r _ e (
      >>=-Ends _ _
        (leaves-Ends (basic cpu) basic-Ends leaf_rounds r.eax 0
          (record { entries = replicate 100 blank; cpuid_i = 0 }) small
          (rounds_enough r.eax 0 small)
          (record { size = length-replicate 100 blank; count = omega arith }))
        λ t h. with_limit-Ends 0x80000000 r' _ e' (
          leaves-Ends (plain cpu) plain-Ends leaf_rounds r'.eax 0x80000000 t small'
            (rounds_enough r'.eax 0x80000000 small') h))
