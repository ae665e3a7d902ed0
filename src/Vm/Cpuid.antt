-- ===== src/Vm/Cpuid.antt =====
-- vm.c: the table of processor identification entries (`vm_init_cpuid`). The instruction itself is
-- a parameter.
pub mod Bounds
pub mod Plain
use virt_learn_program.Base.{
  ℕ, zero, suc, ◌+◌, ◌-◌, ◌*◌, ◌^◌, Bool, true, false, ◌&&◌, ◌||◌, not, leb, ltb, ◌==◌,
  if◌then◌else◌, Option, none, some, List, [], ◌∷◌, replicate, length, set, get_elem?, bit_and, u32,
  ℤ, negsuc,
}

pub record Regs : Type 0 where
  pub eax : ℕ
  pub ebx : ℕ
  pub ecx : ℕ
  pub edx : ℕ

-- `struct kvm_cpuid_entry2`, less its padding.
pub record Entry : Type 0 where
  pub function : ℕ
  pub index : ℕ
  pub flags : ℕ
  pub regs : Regs

abbrev pub blank : Entry
blank = record {
  function = 0;
  index = 0;
  flags = 0;
  regs = record { eax = 0; ebx = 0; ecx = 0; edx = 0 };
}

-- `__get_cpuid` and `__get_cpuid_count`, which give nothing for a leaf that the processor lacks,
-- and KVM's flag for an entry whose index counts.
pub record Cpu : Type 0 where
  pub leaf : ℕ → Option Regs
  pub subleaf : ℕ → ℕ → Option Regs
  pub significant_index : ℕ

abbrev pub max_entries : ℕ
max_entries = 100

pub record Table : Type 0 where
  pub entries : List Entry  -- [KVM_MAX_CPUID_ENTRIES]
  pub cpuid_i : ℕ

-- How a part of the function ends: with a table, with the result -1, with an access outside the
-- table, with a limit that has no value, or without an end in the rounds given.
pub data Fill : Type 0 where
  filled : Table → Fill
  full : Fill
  out_of_table : Fill
  no_limit : Fill
  unfinished : Fill

infixl 5 ◌>>=◌
abbrev pub ◌>>=◌ : Fill → (Table → Fill) → Fill
filled t >>= f = f t
full >>= f = full
out_of_table >>= f = out_of_table
no_limit >>= f = no_limit
unfinished >>= f = unfinished

-- A failed query leaves the registers of the entry as they were.
abbrev pub regs_or : Option Regs → Regs → Regs
regs_or none old = old
regs_or (some r) old = r

abbrev pub is_zero : Regs → Bool
is_zero r = r.eax == 0 && r.ebx == 0 && r.ecx == 0 && r.edx == 0

-- An entry written through the pointer `c`, with what follows. The index is given or stays.
abbrev pub entry_of : Entry → ℕ → Option ℕ → ℕ → Option Regs → Entry
entry_of e i none flags r = record e { function = i; flags = flags; regs = regs_or r e.regs }
entry_of e i (some j) flags r = record {
  function = i;
  index = j;
  flags = flags;
  regs = regs_or r e.regs;
}

abbrev pub with_entry : Table → ℕ → ℕ → Option ℕ → ℕ → Option Regs → (Table → Regs → Fill) → Fill
with_entry t c i j flags r next = elim (get_elem? t.entries c) [
  | none ↦ out_of_table
  | some e ↦
      next (record t { entries = set t.entries c (entry_of e i j flags r) }) (regs_or r e.regs)
]

-- What follows an entry that is dropped again if its registers are all zero.
abbrev pub drop_if_zero : Table → Regs → Fill
drop_if_zero t r = filled (if is_zero r then record t { cpuid_i = t.cpuid_i - 1 } else t)

-- More rounds than the loop over subleaves takes: 64 and the table's size.
abbrev pub subleaf_rounds : ℕ
subleaf_rounds = 200

-- What follows the entry of a subleaf: an end, the same place again, or the next one.
unfoldable pub after_subleaf : ℕ → (Table → Fill) → (Table → Fill) → Table → Regs → Fill
after_subleaf i same next t r =
    let again = same t in
    let further = next (record t { cpuid_i = t.cpuid_i + 1 }) in
    if i == 4 && r.eax == 0
    then filled t
    else if i == 0xb && bit_and r.ecx 0xff00 == 0
    then filled t
    else if i == 0x1f && bit_and r.ecx 0xff00 == 0
    then filled t
    else if i == 0xd && r.eax == 0
    then again
    else if t.cpuid_i == max_entries
    then full
    else further

-- More rounds than there are leaves: a loop that takes more has gone through them all and begins
-- again.
pub leaf_rounds : ℕ
leaf_rounds = 2 ^ 32 + 1

module _ (cpu : Cpu) where
  -- The loop of leaves 4, 0xb and 0xd at subleaf `j`, with `c` pointing at entry `c`.
  unfoldable pub subleaves : ℕ → ℕ → ℕ → ℕ → Table → Fill
  unfolding after_subleaf
  subleaves zero i j c t = unfinished
  subleaves (suc fuel) i j c t =
      if i == 0xd && j == 64
      then filled t
      else if i == 0x1f && j == 64
      then filled t
      else with_entry t c i (some j) cpu.significant_index (cpu.subleaf i j)
          (after_subleaf i (subleaves fuel i (j + 1) c) (subleaves fuel i (j + 1) t.cpuid_i))

  -- The loop of leaves 7 and 0x14 from subleaf `j`, for `n` more.
  unfoldable pub counted : ℕ → ℕ → ℕ → Table → Fill
  counted zero i j t = filled t
  counted (suc n) i j t =
      if t.cpuid_i == max_entries
      then full
      else with_entry (record t { cpuid_i = t.cpuid_i + 1 }) t.cpuid_i i (some j)
          cpu.significant_index (cpu.subleaf i j) λ t' r. counted n i (j + 1) t'

  -- A leaf with one entry, dropped again if it is all zeros; the body of the second loop too.
  unfoldable pub plain : ℕ → Table → Fill
  plain i t =
      if t.cpuid_i == max_entries
      then full
      else with_entry (record t { cpuid_i = t.cpuid_i + 1 }) t.cpuid_i i none 0 (cpu.leaf i)
          drop_if_zero

  -- One round of the first loop.
  unfoldable pub basic : ℕ → Table → Fill
  unfolding plain counted subleaves
  basic i t =
      if i == 4 || i == 0xb || i == 0xd
      then (if t.cpuid_i == max_entries
          then full
          else subleaves subleaf_rounds i 0 t.cpuid_i (record t { cpuid_i = t.cpuid_i + 1 }))
      else if i == 0x7 || i == 0x14
      then (if t.cpuid_i == max_entries
          then full
          else with_entry (record t { cpuid_i = t.cpuid_i + 1 }) t.cpuid_i i (some 0)
              cpu.significant_index (cpu.leaf i) λ t' r. counted r.eax i 1 t')
      else plain i t

  -- A loop `for (; i <= limit; i++)` over leaves, with rounds to spend; `i` is a uint32_t.
  unfoldable pub leaves : (ℕ → Table → Fill) → ℕ → ℕ → ℕ → Table → Fill
  leaves body zero limit i t = unfinished
  leaves body (suc fuel) limit i t =
      let round = body i t >>= λ t'. leaves body fuel limit (u32 (i + 1)) t' in
      if leb i limit then round else filled t

  -- The limit that a query gives; without an answer the variable has no value.
  abbrev pub with_limit : ℕ → (ℕ → Fill) → Fill
  with_limit i next = elim (cpu.leaf i) [ none ↦ no_limit | some r ↦ next r.eax ]

  unfoldable pub fill_table : Fill
  unfolding basic leaves
  fill_table = with_limit 0 λ limit.
      leaves basic leaf_rounds limit 0
        (record { entries = replicate max_entries blank; cpuid_i = 0 })
      >>= λ t. with_limit 0x80000000 λ limit'. leaves plain leaf_rounds limit' 0x80000000 t

  -- `vm_init_cpuid`; `set_cpuid2` is the result of handing the table to KVM. `none` stands for the
  -- ends that are no return.
  unfoldable pub vm_init_cpuid : (Table → ℤ) → Option ℤ
  unfolding fill_table
  vm_init_cpuid set_cpuid2 = elim fill_table [
    | filled t ↦ some (set_cpuid2 t)
    | full ↦ some (negsuc 0)
    | out_of_table ↦ none
    | no_limit ↦ none
    | unfinished ↦ none
  ]
