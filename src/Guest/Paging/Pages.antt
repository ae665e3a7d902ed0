-- ===== src/Guest/Paging/Pages.antt =====
-- Where the addresses that the guest uses lead.
use mathlib.Core.Path.{subst}
use virt_learn_program.Base.{
  ◌<◌, ◌^◌, ◌/◌, get_elem?, arith, zero, ◌+◌, ◌%◌, suc, false, ◌∷◌, ◌++◌, some, [], ◌≡◌, ℕ, true,
  List, Bool,
}
use virt_learn_program.Guest.Memory.{Memory, qword_at, store_all}
use virt_learn_program.Guest.Paging.{ℕ, List, init_paging, table_stores}
use virt_learn_program.Guest.Paging.Clear.{blank, init_paging-tables}
use virt_learn_program.Guest.Paging.Walk.{Translation, walk, walk-further}

-- A page that is meant to be there: its address, its size, where it is, and whether it is the
-- user's.
pub record Mapping : Type 0 where
  pub virtual : ℕ
  pub page_size : ℕ
  pub physical : ℕ
  pub user : Bool

abbrev small : Bool → ℕ → ℕ → Mapping
small user va pa = record { virtual = va; page_size = 0x1000; physical = pa; user = user }

abbrev large : Bool → ℕ → ℕ → Mapping
large user va pa = record { virtual = va; page_size = 0x200000; physical = pa; user = user }

-- Pages of the user's one after another, each where its address says.
abbrev in_place : ℕ → ℕ → List Mapping
in_place zero va = []
in_place (suc n) va = small true va va ∷ in_place n (va + 0x1000)

-- The program from 0x9000 to 0x19fff and from 0x20000 to 0x20fff, the text screen, the tables
-- themselves, the doorbell, the local APIC, the system data, the data of the interrupts, the kernel
-- stack, and the user stacks of four processors.
abbrev pub mappings : List Mapping
mappings =
    in_place 17 0x9000
    ++ small true 0x20000 0x20000 ∷ in_place 2 0xb8000
    ++ large false 0x200000 0x200000
      ∷ large true 0x8000000 0x8000000
      ∷ large false 0x800000 0xfee00000
      ∷ small false 0xfffffff800000000 0x410000
      ∷ small false 0xfffffff800001000 0x411000
      ∷ small false 0xfffffff810000000 0x412000
      ∷ small false 0xfffffff810001000 0x413000
      ∷ large false 0xffffffffffe00000 0xa00000
      ∷ small true 0x7fffffe00000 0x414000
      ∷ small true 0x7fffffe01000 0x415000
      ∷ small true 0x7fffffe02000 0x416000
      ∷ small true 0x7fffffe03000 0x417000
      ∷ []

-- The translation of its first address.
abbrev first_of : Mapping → Translation
first_of m = record {
  page_size = m.page_size;
  physical = m.physical;
  user = m.user;
  writable = true;
}

-- A page is translated as it is meant to be, and begins at a multiple of its size.
abbrev IsMapped : Memory → Mapping → Type 0
IsMapped mem m =
    (walk (qword_at mem) 0x200000 m.virtual ≡ some (first_of m)) × (m.virtual % m.page_size ≡ 0)

abbrev AreMapped : Memory → List Mapping → Type 0
AreMapped mem [] = Unit
AreMapped mem (m ∷ ms) = IsMapped mem m × AreMapped mem ms

mappings-AreMapped : (mem : Memory) → AreMapped (store_all table_stores (blank mem)) mappings
unfolding qword_at table_stores
mappings-AreMapped mem = ground arith

at-IsMapped :
    (mem : Memory) (ms : List Mapping) (i : ℕ) (m : Mapping)
    → AreMapped mem ms
    → get_elem? ms i ≡ some m
    → IsMapped mem m
at-IsMapped mem [] i m h found = absurd cc
at-IsMapped mem (n ∷ ms) zero m h found = let same : n ≡ m = cc in subst (IsMapped mem) same h.0
at-IsMapped mem (n ∷ ms) (suc i) m h found = at-IsMapped mem ms i m h.1 found

-- On the processor that starts the others, `init_paging` ends, whatever the memory was before, and
-- with the tables that it leaves each address of each page of the list is translated to the same
-- place of the physical page, may be written, and may be used by the user where the page is the
-- user's.
pub init_paging-maps :
    (eax : ℕ) (mem : Memory) (i : ℕ) (m : Mapping) (o : ℕ)
    → eax / 2 ^ 8 % 2 ≡ 1
    → get_elem? mappings i ≡ some m
    → o < m.page_size
    → (mem' : Memory) × (init_paging eax mem ≡ some mem')
      × (walk (qword_at mem') 0x200000 (m.virtual + o)
          ≡ some (record {
            page_size = m.page_size;
            physical = m.physical + o;
            user = m.user;
            writable = true;
          }))
init_paging-maps eax mem i m o first found inside =
    let mem' = store_all table_stores (blank mem) in
    let mapped = at-IsMapped mem' mappings i m (mappings-AreMapped mem) found in
    (
      mem',
      init_paging-tables eax mem first,
      walk-further (qword_at mem') 0x200000 m.virtual o (first_of m) mapped.0 mapped.1 inside,
    )
