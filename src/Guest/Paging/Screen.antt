-- ===== src/Guest/Paging/Screen.antt =====
-- The text screen through the guest's page tables.
use mathlib.Core.Path.{subst}
use virt_learn_program.Base.{
  arith, ◌-◌, ◌*◌, ◌≤◌, dec_lt, Option, get_elem?, length, sym, ◌∙◌, ◌+◌, ◌<◌, ◌%◌, ◌⊎◌, ◌^◌, ◌/◌,
  true, ◌≡◌, ℕ, List, refl, [], ◌∷◌, some,
}
use virt_learn_program.Guest.Memory.{Memory, qword_at}
use virt_learn_program.Guest.Paging.{init_paging}
use virt_learn_program.Guest.Paging.Walk.{walk}
use virt_learn_program.Guest.Paging.Pages.{Mapping, mappings, init_paging-maps}
use virt_learn_program.Guest.Screen.Cells.{put_all, put_all-cells, cell_at, AreShown}
use virt_learn_program.Vm.Exits.{Exit, mmio}
use virt_learn_program.Vm.Exits.Console.{cells}
use virt_learn_program.Vm.Setup.Memory.{region1, region2, IsBacked, regions_apart}

-- A store that the tables let through to the address that it names, where no memory of the guest's
-- is.
abbrev pub IsInPlace : Memory → Exit → Type 0
IsInPlace mem (mmio a byte) =
    (walk (qword_at mem) 0x200000 a
      ≡ some (record { page_size = 0x1000; physical = a; user = true; writable = true }))
    × ((mem1 mem2 : ℕ) → ¬ (IsBacked (region1 mem1) a ⊎ IsBacked (region2 mem2) a))
IsInPlace mem _ = ⊥

abbrev pub AreInPlace : Memory → List Exit → Type 0
AreInPlace mem [] = Unit
AreInPlace mem (e ∷ es) = IsInPlace mem e × AreInPlace mem es

leads_there :
    (eax i : ℕ) (m : Mapping) (o : ℕ) (mem mem' : Memory)
    → eax / 2 ^ 8 % 2 ≡ 1
    → init_paging eax mem ≡ some mem'
    → get_elem? mappings i ≡ some m
    → o < m.page_size
    → walk (qword_at mem') 0x200000 (m.virtual + o)
      ≡ some (record {
        page_size = m.page_size;
        physical = m.physical + o;
        user = m.user;
        writable = true;
      })
leads_there eax i m o mem mem' first ends found inside =
    let (mem1, ends1, leads) = init_paging-maps eax mem i m o first found inside in
    let both_ends : ◌≡◌ {A = Option Memory} (some mem1) (some mem') = sym ends1 ∙ ends in
    let same : mem1 ≡ mem' = cc in
    subst
      (λ (k : Memory).
        walk (qword_at k) 0x200000 (m.virtual + o)
        ≡ some (record {
          page_size = m.page_size;
          physical = m.physical + o;
          user = m.user;
          writable = true;
        }))
      same leads

abbrev screen_page : ℕ → Mapping
screen_page va = record { virtual = va; page_size = 0x1000; physical = va; user = true }

screen-leads :
    (eax o : ℕ) (mem mem' : Memory)
    → eax / 2 ^ 8 % 2 ≡ 1
    → init_paging eax mem ≡ some mem'
    → o < 0x2000
    → walk (qword_at mem') 0x200000 (0xb8000 + o)
      ≡ some (record { page_size = 0x1000; physical = 0xb8000 + o; user = true; writable = true })
screen-leads eax o mem mem' first ends inside = elim (dec_lt o 0x1000) [
  | yes upper ↦ leads_there eax 18 (screen_page 0xb8000) o mem mem' first ends refl upper
  | no lower ↦
      let place : 0xb8000 + o ≡ 0xb9000 + (o - 0x1000) = omega arith in
      rw place (
        leads_there eax 19 (screen_page 0xb9000) (o - 0x1000) mem mem' first ends refl
          (omega arith))
]

cells-AreInPlace :
    (eax r c : ℕ) (bs : List ℕ) (mem mem' : Memory)
    → eax / 2 ^ 8 % 2 ≡ 1
    → init_paging eax mem ≡ some mem'
    → r ≤ 50
    → c + length bs ≤ 80
    → AreInPlace mem' (cells r c bs)
cells-AreInPlace eax r c [] mem mem' first ends hr hc = tt
cells-AreInPlace eax r c (b ∷ bs) mem mem' first ends hr hc =
    let o = 160 * r + 2 * c in
    let place : 0xb8000 + o ≡ cell_at r c = omega arith in
    (
      (
        subst
            (λ (a : ℕ).
              walk (qword_at mem') 0x200000 a
              ≡ some (record { page_size = 0x1000; physical = a; user = true; writable = true }))
            place (screen-leads eax o mem mem' first ends (omega arith)),
        λ mem1 mem2 backed. (regions_apart mem1 mem2 (cell_at r c) backed).0 (omega arith),
      ),
      cells-AreInPlace eax r (c + 1) bs mem mem' first ends hr (omega arith),
    )

-- With the tables that `init_paging` leaves on the processor that starts the others, each store
-- that shown characters make in a row of the first 51, up to its last cell, goes to the physical
-- address that it names, and no memory of the guest's is there: it comes out as the exit that it is
-- taken to be.
pub put_all-AreInPlace :
    (eax r c : ℕ) (bs : List ℕ) (mem mem' : Memory)
    → eax / 2 ^ 8 % 2 ≡ 1
    → init_paging eax mem ≡ some mem'
    → r ≤ 50
    → c + length bs ≤ 80
    → AreShown bs
    → AreInPlace mem' (put_all bs (cell_at r c)).exits
put_all-AreInPlace eax r c bs mem mem' first ends hr hc shown =
    rw (put_all-cells r c bs hr hc shown) (cells-AreInPlace eax r c bs mem mem' first ends hr hc)
