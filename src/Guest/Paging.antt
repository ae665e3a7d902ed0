-- ===== src/Guest/Paging.antt =====
-- asm/page64.S: the guest's page tables.
pub mod Clear
pub mod Walk
pub mod Pages
pub mod Lookup
pub mod Rights
pub mod Isolation
pub mod Screen
use virt_learn_program.Base.{
  ℕ, zero, suc, ◌+◌, ◌-◌, ◌*◌, ◌/◌, ◌%◌, ◌^◌, ◌==◌, u32, if◌then◌else◌, Option, none, some, List,
  [], ◌∷◌, ◌++◌,
}
use virt_learn_program.Guest.Memory.{Memory, store, store_all}

-- One loop after another, which may run out of rounds.
infixl 5 ◌>>=◌
abbrev pub ◌>>=◌ : Option Memory → (Memory → Option Memory) → Option Memory
none >>= f = none
some mem >>= f = f mem

-- `movdqu` of the cleared `xmm1`, at an address of 32 bits.
unfoldable pub clear16 : ℕ → Memory → Memory
clear16 a mem = store 16 (u32 a) 0 mem

-- The eight stores of a round.
unfoldable pub clear128 : ℕ → ℕ → Memory → Memory
clear128 esi eax mem =
    let top = esi + eax in
    clear16 (top - 128) (
      clear16 (top - 112) (
        clear16 (top - 96) (
          clear16 (top - 80) (
            clear16 (top - 64)
              (clear16 (top - 48) (clear16 (top - 32) (clear16 (top - 16) mem)))))))

-- `clear_4K_page_loop`, with rounds to spend; `eax` is a multiple of 128, and not 0.
unfoldable pub clear_4K_page_loop : ℕ → ℕ → ℕ → Memory → Option Memory
clear_4K_page_loop zero esi eax mem = none
clear_4K_page_loop (suc fuel) esi eax mem =
    let mem' = clear128 esi eax mem in
    let rest = clear_4K_page_loop fuel esi (eax - 128) mem' in
    if eax - 128 == 0 then some mem' else rest

abbrev pub page_rounds : ℕ
page_rounds = 32

unfoldable pub clear_4K_page : ℕ → Memory → Option Memory
clear_4K_page esi mem = clear_4K_page_loop page_rounds esi 4096 mem

-- `%edi` pages from `%esi` up.
unfoldable pub clear_4k_pages : ℕ → ℕ → Memory → Option Memory
clear_4k_pages esi zero mem = some mem
clear_4k_pages esi (suc edi) mem =
    clear_4K_page esi mem >>= λ mem'. clear_4k_pages (u32 (esi + 0x1000)) edi mem'

-- A pair of stores to an entry: its low half with an address and flags (1 present, 2 writable, 4
-- for the user, 8 write through, 0x10 not cached, 0x80 large), and its high half.
abbrev pub entry : ℕ → ℕ → List (ℕ × ℕ)
entry a v = (a, v) ∷ (a + 4, 0) ∷ []

-- The highest table.
abbrev pub pml4_stores : List (ℕ × ℕ)
pml4_stores =
    entry 0x200000 (0x201000 + 7)
    ++ entry (0x200000 + 8 * 0x1ff) (0x202000 + 3)
    ++ entry (0x200000 + 8 * 0xff) (0x300000 + 7)

-- The tables of the lowest addresses.
abbrev pub low_stores : List (ℕ × ℕ)
low_stores =
    entry 0x201000 (0x203000 + 7)
    ++ entry 0x203000 (0x205000 + 7)
    ++ entry (0x203000 + 8 * 1) (0x200000 + 0x83)
    ++ entry (0x203000 + 8 * 2) (0x207000 + 3)
    ++ entry (0x203000 + 8 * 0x40) (0x8000000 + 0x87)
    ++ entry (0x203000 + 8 * 4) (0xfee00000 + 0x9b)

-- The tables of the system data, of the kernel stack and of the processors' stacks.
abbrev pub high_stores : List (ℕ × ℕ)
high_stores =
    entry (0x202000 + 8 * 0x1e0) (0x204000 + 7)
    ++ entry 0x204000 (0x206000 + 3)
    ++ entry (0x204000 + 8 * 0x80) (0x208000 + 3)
    ++ entry (0x202000 + 8 * 0x1ff) (0x209000 + 3)
    ++ entry (0x300000 + 8 * 0x1fc) (0x301000 + 7)
    ++ entry (0x300000 + 8 * 0x1ff) (0x302000 + 7)

-- The processors' stacks and the kernel stack.
abbrev pub stack_stores : List (ℕ × ℕ)
stack_stores =
    entry 0x301000 (0x800000 + 0x86)
    ++ entry (0x302000 + 8 * 0x1ff) (0x303000 + 7)
    ++ entry (0x209000 + 8 * 0x1ff) (0xa00000 + 0x83)

-- The program; the second store of the first pair is to the entry before.
abbrev pub code_stores : List (ℕ × ℕ)
code_stores =
    ((0x205000 + 8 * 1, 6) ∷ (0x205000 + 4, 0) ∷ [])
    ++ entry (0x205000 + 8 * 9) (0x9000 + 7)
    ++ entry (0x205000 + 8 * 0xa) (0xa000 + 7)
    ++ entry (0x205000 + 8 * 0xb) (0xb000 + 7)
    ++ entry (0x205000 + 8 * 0xc) (0xc000 + 7)
    ++ entry (0x205000 + 8 * 0xd) (0xd000 + 7)
    ++ entry (0x205000 + 8 * 0xe) (0xe000 + 7)
    ++ entry (0x205000 + 8 * 0xf) (0xf000 + 7)
    ++ entry (0x205000 + 8 * 0x10) (0x10000 + 7)
    ++ entry (0x205000 + 8 * 0x11) (0x11000 + 7)
    ++ entry (0x205000 + 8 * 0x12) (0x12000 + 7)
    ++ entry (0x205000 + 8 * 0x13) (0x13000 + 7)
    ++ entry (0x205000 + 8 * 0x14) (0x14000 + 7)
    ++ entry (0x205000 + 8 * 0x15) (0x15000 + 7)
    ++ entry (0x205000 + 8 * 0x16) (0x16000 + 7)
    ++ entry (0x205000 + 8 * 0x17) (0x17000 + 7)
    ++ entry (0x205000 + 8 * 0x18) (0x18000 + 7)
    ++ entry (0x205000 + 8 * 0x19) (0x19000 + 7)
    ++ entry (0x205000 + 8 * 0x20) (0x20000 + 7)

-- The text screen.
abbrev pub video_stores : List (ℕ × ℕ)
video_stores =
    entry (0x205000 + 8 * 0xb8) (0xb8000 + 7) ++ entry (0x205000 + 8 * 0xb9) (0xb9000 + 7)

-- The system data, the stack of the interrupts and the processors' stacks.
abbrev pub data_stores : List (ℕ × ℕ)
data_stores =
    entry 0x206000 (0x410000 + 3)
    ++ entry (0x206000 + 8 * 1) (0x411000 + 3)
    ++ entry 0x208000 (0x412000 + 3)
    ++ entry (0x208000 + 8 * 1) (0x413000 + 3)
    ++ entry 0x303000 (0x414000 + 7)
    ++ entry (0x303000 + 8 * 1) (0x415000 + 7)
    ++ entry (0x303000 + 8 * 2) (0x416000 + 7)
    ++ entry (0x303000 + 8 * 3) (0x417000 + 7)

unfoldable pub table_stores : List (ℕ × ℕ)
table_stores =
    pml4_stores ++ low_stores ++ high_stores ++ stack_stores ++ code_stores ++ video_stores
    ++ data_stores

-- `init_paging`: bit 8 of the low half of IA32_APIC_BASE is set on the processor that starts the
-- others.
unfoldable pub init_paging : ℕ → Memory → Option Memory
init_paging eax mem = if eax / 2 ^ 8 % 2 == 0 then some mem else do
  mem1 ← clear_4k_pages 0x200000 15 mem
  mem2 ← clear_4k_pages 0x201000 3 mem1
  mem3 ← clear_4k_pages 0x300000 5 mem2
  some (store_all table_stores mem3)
