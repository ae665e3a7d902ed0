-- ===== src/Vm/Exits/Console.antt =====
-- What a guest that writes to its text screen makes the monitor print.
use virt_learn_program.Base.{
  ℕ, ◌+◌, ◌*◌, ◌≤◌, ◌<◌, ◌≡◌, refl, arith, ap, ◌∙◌, List, [], ◌∷◌, ◌++◌, map, length,
}
use mathlib.Core.List.{append_assoc}
use virt_learn_program.Vm.Exits.{Exit, mmio, Emit, char, handle, run_loop, before}

-- The writes of characters into a row's cells, from column `c` on; a cell has two bytes.
abbrev pub cells : ℕ → ℕ → List ℕ → List Exit
cells r c [] = []
cells r c (b ∷ bs) = mmio (0xb8000 + 160 * r + 2 * c) b ∷ cells r (c + 1) bs

-- Rows written one below the other, from row `r` on.
abbrev pub rows : ℕ → List (List ℕ) → List Exit
rows r [] = []
rows r (bs ∷ bss) = cells r 0 bs ++ rows (r + 1) bss

-- A row as a line of the console.
abbrev pub lines : List (List ℕ) → List Emit
lines [] = []
lines ([] ∷ bss) = lines bss
lines ((b ∷ bs) ∷ bss) = char b'\n' ∷ char b ∷ map char bs ++ lines bss

abbrev pub AreRows : List (List ℕ) → Type 0
AreRows [] = Unit
AreRows (bs ∷ bss) = (length bs ≤ 80) × AreRows bss

run_loop-later :
    (r c b : ℕ) (es : List Exit)
    → r ≤ 50
    → 0 < c
    → c < 80
    → run_loop (mmio (0xb8000 + 160 * r + 2 * c) b ∷ es) ≡ before (char b ∷ []) (run_loop es)
unfolding run_loop handle
run_loop-later r c b es hr h0 hc = ground arith

run_loop-first :
    (r b : ℕ) (es : List Exit)
    → r ≤ 50
    → run_loop (mmio (0xb8000 + 160 * r + 2 * 0) b ∷ es)
      ≡ before (char b'\n' ∷ char b ∷ []) (run_loop es)
unfolding run_loop handle
run_loop-first r b es hr = ground arith

run_loop-cells :
    (r c : ℕ) (bs : List ℕ) (es : List Exit)
    → r ≤ 50
    → 0 < c
    → c + length bs ≤ 80
    → run_loop (cells r c bs ++ es) ≡ before (map char bs) (run_loop es)
run_loop-cells r c [] es hr h0 hc = refl
run_loop-cells r c (b ∷ bs) es hr h0 hc =
    run_loop-later r c b (cells r (c + 1) bs ++ es) hr h0 (omega arith)
    ∙ ap (before (char b ∷ [])) (run_loop-cells r (c + 1) bs es hr (omega arith) (omega arith))

-- Up to 51 rows of up to 80 characters, written from the first cell of each row on, come out as one
-- line for each row that is not empty, each begun by a newline; the loop then goes on with the
-- exits that follow.
pub run_loop-rows :
    (r : ℕ) (bss : List (List ℕ)) (es : List Exit)
    → r + length bss ≤ 51
    → AreRows bss
    → run_loop (rows r bss ++ es) ≡ before (lines bss) (run_loop es)
run_loop-rows r [] es hr h = refl
run_loop-rows r ([] ∷ bss) es hr h = run_loop-rows (r + 1) bss es (omega arith) h.1
run_loop-rows r ((b ∷ bs) ∷ bss) es hr h =
    run_loop-first r b ((cells r (0 + 1) bs ++ rows (r + 1) bss) ++ es) (omega arith)
    ∙ ap (before (char b'\n' ∷ char b ∷ [])) (
        rw (append_assoc (cells r (0 + 1) bs) (rows (r + 1) bss) es) (
          run_loop-cells r (0 + 1) bs (rows (r + 1) bss ++ es) (omega arith) (omega arith)
            (omega arith)
          ∙ ap (before (map char bs)) (run_loop-rows (r + 1) bss es (omega arith) h.1)
          ∙ rw (append_assoc (map char bs) (lines bss) (run_loop es).emitted)))
