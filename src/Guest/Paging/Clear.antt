-- ===== src/Guest/Paging/Clear.antt =====
-- What the loops that clear pages leave.
use virt_learn_program.Base.{
  ◌%◌, ◌/◌, false, ◌==◌, some, ◌∙◌, ap, zero, sym, ◌*◌, suc, u32, ltb, ◌-◌, ◌&&◌, ◌^◌, ◌<◌, leb,
  arith, ◌≤◌, ◌≡◌, ◌+◌, if◌then◌else◌, ℕ,
}
use mathlib.Core.Path.{ap, sym, fun_ext}
use native.Mathlib.Nat.{zero-div}
use virt_learn_program.Guest.Memory.{Memory, store, store_all}
use virt_learn_program.Guest.Paging.{
  init_paging, table_stores, ℕ, clear16, clear128, clear_4K_page_loop, clear_4K_page,
  clear_4k_pages,
}

-- A range of bytes set to zero.
abbrev pub cleared : ℕ → ℕ → Memory → Memory
cleared a n mem b = if leb a b && ltb b (a + n) then 0 else mem b

store-cleared : (n a : ℕ) (mem : Memory) → store n a 0 mem ≡ cleared a n mem
store-cleared n a mem = fun_ext λ b. rw (zero-div (256 ^ (b - a)))

-- A range below a cleared one.
cleared-join :
    (a n m : ℕ) (mem : Memory) → cleared a n (cleared (a + n) m mem) ≡ cleared a (n + m) mem
cleared-join a n m mem = fun_ext λ b. ground arith

-- A range above a cleared one.
join-cleared :
    (a n m : ℕ) (mem : Memory) → cleared (a + n) m (cleared a n mem) ≡ cleared a (n + m) mem
join-cleared a n m mem = fun_ext λ b. ground arith

cleared_none : (a : ℕ) (mem : Memory) → cleared a 0 mem ≡ mem
cleared_none a mem = fun_ext λ b. ground arith

-- Sixteen bytes after sixteen, the highest first.
abbrev clear_down : ℕ → ℕ → Memory → Memory
clear_down zero a mem = mem
clear_down (suc k) a mem = clear16 a (clear_down k (a + 16) mem)

clear_down-cleared :
    (k a : ℕ) (mem : Memory) → a + 16 * k ≤ 2 ^ 32 → clear_down k a mem ≡ cleared a (16 * k) mem
unfolding clear16
clear_down-cleared zero a mem small = sym (cleared_none a mem)
clear_down-cleared (suc k) a mem small =
    let address : u32 a ≡ a = omega arith in
    let size : 16 * suc k ≡ 16 + 16 * k = omega arith in
    ap (clear16 a) (clear_down-cleared k (a + 16) mem (omega arith))
    ∙ rw (address, size)
        (store-cleared 16 a (cleared (a + 16) (16 * k) mem) ∙ cleared-join a 16 (16 * k) mem)

clear128-cleared :
    (esi eax : ℕ) (mem : Memory)
    → 128 ≤ eax
    → esi + eax ≤ 2 ^ 32
    → clear128 esi eax mem ≡ cleared (esi + (eax - 128)) 128 mem
unfolding clear128
clear128-cleared esi eax mem enough small =
    let b = esi + (eax - 128) in
    let e0 : esi + eax - 128 ≡ b = omega arith in
    let e1 : esi + eax - 112 ≡ b + 16 = omega arith in
    let e2 : esi + eax - 96 ≡ b + 16 + 16 = omega arith in
    let e3 : esi + eax - 80 ≡ b + 16 + 16 + 16 = omega arith in
    let e4 : esi + eax - 64 ≡ b + 16 + 16 + 16 + 16 = omega arith in
    let e5 : esi + eax - 48 ≡ b + 16 + 16 + 16 + 16 + 16 = omega arith in
    let e6 : esi + eax - 32 ≡ b + 16 + 16 + 16 + 16 + 16 + 16 = omega arith in
    let e7 : esi + eax - 16 ≡ b + 16 + 16 + 16 + 16 + 16 + 16 + 16 = omega arith in
    rw (e0, e1, e2, e3, e4, e5, e6, e7) (clear_down-cleared 8 b mem (omega arith))

loop-cleared :
    (k fuel esi : ℕ) (mem : Memory)
    → k < fuel
    → esi + 128 * suc k ≤ 2 ^ 32
    → clear_4K_page_loop fuel esi (128 * suc k) mem ≡ some (cleared esi (128 * suc k) mem)
unfolding clear_4K_page_loop
loop-cleared k zero esi mem enough small = absurd (omega arith)
loop-cleared zero (suc fuel) esi mem enough small =
    let first : esi + (128 - 128) ≡ esi = omega arith in
    ap some
      (clear128-cleared esi 128 mem (omega arith) small ∙ ap (λ (n : ℕ). cleared n 128 mem) first)
loop-cleared (suc k) (suc fuel) esi mem enough small =
    let size = 128 * suc (suc k) in
    let less : size - 128 ≡ 128 * suc k = omega arith in
    let more : (size - 128 == 0) ≡ false = ground arith in
    let rest =
      loop-cleared k fuel esi (cleared (esi + 128 * suc k) 128 mem) (omega arith) (omega arith) in
    let sum : 128 * suc k + 128 ≡ size = omega arith in
    rw (more, clear128-cleared esi size mem (omega arith) small, less, rest)
      (ap some (cleared-join esi (128 * suc k) 128 mem ∙ ap (λ (n : ℕ). cleared esi n mem) sum))

clear_4K_page-cleared :
    (esi : ℕ) (mem : Memory)
    → esi + 4096 ≤ 2 ^ 32
    → clear_4K_page esi mem ≡ some (cleared esi 4096 mem)
unfolding clear_4K_page
clear_4K_page-cleared esi mem small = loop-cleared 31 32 esi mem (omega arith) small

-- The loop over pages ends, for pages below 4 GB, and leaves each of their bytes zero and every
-- other byte as it was.
pub clear_4k_pages-cleared :
    (n esi : ℕ) (mem : Memory)
    → esi + 4096 * n < 2 ^ 32
    → clear_4k_pages esi n mem ≡ some (cleared esi (4096 * n) mem)
unfolding clear_4k_pages
clear_4k_pages-cleared zero esi mem small = ap some (sym (cleared_none esi mem))
clear_4k_pages-cleared (suc n) esi mem small =
    let next : u32 (esi + 0x1000) ≡ esi + 4096 = omega arith in
    let sum : 4096 + 4096 * n ≡ 4096 * suc n = omega arith in
    rw
      (
        clear_4K_page-cleared esi mem (omega arith),
        next,
        clear_4k_pages-cleared n (esi + 4096) (cleared esi 4096 mem) (omega arith),
      )
      (ap some (join-cleared esi 4096 (4096 * n) mem ∙ ap (λ (k : ℕ). cleared esi k mem) sum))

-- The tables before their entries are written.
abbrev pub blank : Memory → Memory
blank mem =
    cleared 0x300000 (4096 * 5) (cleared 0x201000 (4096 * 3) (cleared 0x200000 (4096 * 15) mem))

-- On the processor that starts the others, the tables are written after the pages are cleared,
-- whatever was there.
pub init_paging-tables :
    (eax : ℕ) (mem : Memory)
    → eax / 2 ^ 8 % 2 ≡ 1
    → init_paging eax mem ≡ some (store_all table_stores (blank mem))
unfolding init_paging
init_paging-tables eax mem first =
    let mem1 = cleared 0x200000 (4096 * 15) mem in
    let mem2 = cleared 0x201000 (4096 * 3) mem1 in
    rw (
      first,
      clear_4k_pages-cleared 15 0x200000 mem (omega arith),
      clear_4k_pages-cleared 3 0x201000 mem1 (omega arith),
      clear_4k_pages-cleared 5 0x300000 mem2 (omega arith),
    )
