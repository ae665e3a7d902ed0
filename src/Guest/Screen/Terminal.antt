-- ===== src/Guest/Screen/Terminal.antt =====
-- The monitor as a terminal of the guest's screen: any text, from any cell.
use mathlib.Core.List.{append_assoc}
use virt_learn_program.Base.{
  ap, ◌∙◌, refl, sym, [], ◌∷◌, ◌≤◌, length, bit_and-byte, arith, ◌/◌, ◌%◌, leb, ◌≡◌, ◌^◌, ◌==◌, ◌*◌,
  ◌<◌, ◌+◌, ◌++◌, if◌then◌else◌, ℕ, List, [], ◌∷◌,
}
use virt_learn_program.Guest.Screen.{get_current_column, write_char, putc}
use virt_learn_program.Guest.Screen.Cells.{AreShown, put_all, bit_or-attribute}
use virt_learn_program.Vm.Exits.{Exit, Emit, char, handle, run_loop, before}

-- A terminal of rows of 80 cells, of which the first 4089 can be written. A newline goes to the
-- start of the next row. Any other character is printed and goes to the next cell, after a new
-- line where its cell is the first of a row; past the last cell that can be written it is lost.
abbrev pub next_cell : ℕ → ℕ → ℕ
next_cell k b = if b == 10 then 80 * (k / 80 + 1) else if leb k 4088 then k + 1 else k

abbrev pub printed : ℕ → ℕ → List Emit
printed k b =
    if b == 10
    then []
    else if leb k 4088
    then if k % 80 == 0 then char b'\n' ∷ char b ∷ [] else char b ∷ []
    else []

abbrev pub typed : ℕ → List ℕ → List Emit
typed k [] = []
typed k (b ∷ bs) = printed k b ++ typed (next_cell k b) bs

abbrev pub end_cell : ℕ → List ℕ → ℕ
end_cell k [] = k
end_cell k (b ∷ bs) = end_cell (next_cell k b) bs

abbrev pub AreBytes : List ℕ → Type 0
AreBytes [] = Unit
AreBytes (b ∷ bs) = (b < 256) × AreBytes bs

abbrev pub at : ℕ → ℕ
at k = 0xb8000 + 2 * k

putc-cell : (k b : ℕ) → k < 2 ^ 60 → b < 256 → (putc b (at k)).current ≡ at (next_cell k b)
unfolding putc write_char get_current_column
putc-cell k b small byte =
    let cut : b % 256 ≡ b = omega arith in
    rw (bit_and-byte b, cut, bit_or-attribute b byte) (ground arith)

putc-printed :
    (k b : ℕ) (es : List Exit)
    → b < 256
    → run_loop ((putc b (at k)).exits ++ es) ≡ before (printed k b) (run_loop es)
unfolding putc write_char run_loop handle
putc-printed k b es byte =
    let cut : b % 256 ≡ b = omega arith in
    rw (bit_and-byte b, cut, bit_or-attribute b byte) (ground arith)

next_cell-le : (k b : ℕ) → next_cell k b ≤ k + 80
next_cell-le k b = ground arith

pub put_all-end_cell :
    (k : ℕ) (bs : List ℕ)
    → k + 80 * length bs < 2 ^ 60
    → AreBytes bs
    → (put_all bs (at k)).current ≡ at (end_cell k bs)
put_all-end_cell k [] small bytes = refl
put_all-end_cell k (b ∷ bs) small bytes =
    rw (putc-cell k b (omega arith) bytes.0)
      (put_all-end_cell (next_cell k b) bs (omega (arith, next_cell-le k b)) bytes.1)

-- The cursor stands at a cell, and the text is bytes, newlines among them, not so long that the
-- cursor could pass 2 ^ 60 cells. Then the monitor prints of the stores for the text what the
-- terminal prints of the text from that cell on, and goes on with the exits that follow.
pub run_loop-put_all :
    (k : ℕ) (bs : List ℕ) (es : List Exit)
    → k + 80 * length bs < 2 ^ 60
    → AreBytes bs
    → run_loop ((put_all bs (at k)).exits ++ es) ≡ before (typed k bs) (run_loop es)
run_loop-put_all k [] es small bytes = refl
run_loop-put_all k (b ∷ bs) es small bytes =
    let rest = put_all bs (putc b (at k)).current in
    let next = putc-cell k b (omega arith) bytes.0 in
    let later = run_loop-put_all (next_cell k b) bs es (omega (arith, next_cell-le k b)) bytes.1 in
    rw (append_assoc (putc b (at k)).exits rest.exits es) (
      putc-printed k b (rest.exits ++ es) bytes.0
      ∙ rw (next, later)
          (ap (λ (xs : List Emit). record (run_loop es) { emitted = xs })
            (sym (append_assoc (printed k b) (typed (next_cell k b) bs) (run_loop es).emitted))))

pub AreBytes-append : (xs ys : List ℕ) → AreBytes xs → AreBytes ys → AreBytes (xs ++ ys)
AreBytes-append [] ys h k = k
AreBytes-append (x ∷ xs) ys h k = (h.0, AreBytes-append xs ys h.1 k)

pub AreShown-AreBytes : (xs : List ℕ) → AreShown xs → AreBytes xs
AreShown-AreBytes [] h = tt
AreShown-AreBytes (x ∷ xs) h = (h.0.0, AreShown-AreBytes xs h.1)
