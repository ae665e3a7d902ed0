-- ===== src/Guest/Handlers/Faults.antt =====
-- What the monitor prints for a page fault and for a double fault of its guest.
use mathlib.Core.List.{append-nil}
use virt_learn_program.Base.{
  ◌%◌, ◌/◌, sym, length, Option, arith, [], ◌++◌, ap, ◌∷◌, ◌*◌, some, ◌≤◌, ◌≡◌, ◌^◌, ◌<◌, ◌+◌, List,
  ℕ, refl, ◌∙◌,
}
use virt_learn_program.Guest.Memory.{qword_at-halves, Memory, qword_at, bytes_at}
use virt_learn_program.Guest.Screen.{and_then, Shown, println}
use virt_learn_program.Guest.Screen.Cells.{put_all-cells, puts-string, println-newline, cell_at}
use virt_learn_program.Guest.Screen.Hex.{hex}
use virt_learn_program.Guest.Handlers.{show_line, df_handler, pf_handler}
use virt_learn_program.Guest.Handlers.Report.{
  Message, Frame, pushed, AreWords, and_then-some, stacked, whole, row_fits, show_line-row,
}
use virt_learn_program.Vm.Exits.{Exit, run_loop, before}
use virt_learn_program.Vm.Exits.Console.{cells, rows, lines, run_loop-rows}

module _ (mem : Memory) (fuel msg1 msg2 msg3 sp cr2 r : ℕ) (t1 t2 t3 : List ℕ)
    (m1 : Message mem fuel msg1 t1) (m2 : Message mem fuel msg2 t2) (m3 : Message mem fuel msg3 t3)
    (hr : r ≤ 48) where
  abbrev pf_report : ℕ → List (List ℕ)
  pf_report rip = t1 ∷ (t2 ++ hex 16 rip) ∷ (t3 ++ hex 16 cr2) ∷ []

  pf_handler-rows :
      (rip : ℕ)
      → qword_at mem (sp + 8) ≡ rip
      → pf_handler mem fuel msg1 msg2 msg3 sp cr2 (cell_at r 0)
        ≡ some (record { current = cell_at (r + 3) 0; exits = rows r (pf_report rip) })
  unfolding pf_handler
  pf_handler-rows rip e =
      let first =
        puts-string mem fuel msg1 (cell_at r 0) t1 m1.enough m1.somewhere m1.string
        ∙ ap some (put_all-cells r 0 t1 (omega arith) (omega (arith, m1.short)) m1.shown) in
      let l2 = show_line-row mem fuel msg2 rip (r + 1) t2 (omega arith) m2 in
      let l3 = show_line-row mem fuel msg3 cr2 (r + 1 + 1) t3 (omega arith) m3 in
      let two : ℕ → Option Shown =
        λ c2. and_then (show_line mem fuel msg2 rip c2) λ c3. show_line mem fuel msg3 cr2 c3 in
      let others : two (cell_at (r + 1) 0) ≡ _ =
        and_then-some (λ c3. show_line mem fuel msg3 cr2 c3) l2 l3 in
      rw e (
        and_then-some (λ c1. and_then (some (println c1)) two) first
          (rw (println-newline r (0 + length t1) (omega arith) (omega (arith, m1.short)), others))
        ∙ ap some (stacked r t1 (t2 ++ hex 16 rip) (t3 ++ hex 16 cr2)))

  -- After a page fault, with such messages and such a cursor, the handler makes the monitor print
  -- three lines: a message, one that ends in the sixteen digits of the address where it occurred,
  -- and one that ends in those of the address that faulted.
  pub pf_handler-reports :
      (f : Frame) (code : ℕ) (es : List Exit)
      → AreWords mem sp (code ∷ pushed f)
      → (s : Shown) × (pf_handler mem fuel msg1 msg2 msg3 sp cr2 (cell_at r 0) ≡ some s)
        × (s.current ≡ cell_at (r + 3) 0)
        × (run_loop (s.exits ++ es) ≡ before (lines (pf_report f.rip)) (run_loop es))
  pf_handler-reports f code es words = (
    record { current = cell_at (r + 3) 0; exits = rows r (pf_report f.rip) },
    pf_handler-rows f.rip words.1.0,
    refl,
    run_loop-rows r (pf_report f.rip) es (omega arith)
        (omega (arith, m1.short), (row_fits f.rip m2, (row_fits cr2 m3, tt))),
  )

-- A double fault.
module _ (mem : Memory) (small : (a : ℕ) → mem a < 256) where
  half_below : (a : ℕ) → bytes_at mem 4 a < 2 ^ 32
  half_below a = omega (arith, small a, small (a + 1), small (a + 1 + 1), small (a + 1 + 1 + 1))

  straddling :
      (a : ℕ)
      → qword_at mem (a + 4) ≡ qword_at mem a / 2 ^ 32 + qword_at mem (a + 8) % 2 ^ 32 * 2 ^ 32
  straddling a =
      let next : a + 4 + 4 ≡ a + 8 = omega arith in
      let upper : qword_at mem (a + 4) ≡ bytes_at mem 4 (a + 4) + 2 ^ 32 * bytes_at mem 4 (a + 8) =
        rw (qword_at-halves mem (a + 4), next) in
      omega (
        arith,
        qword_at-halves mem a,
        qword_at-halves mem (a + 8),
        upper,
        half_below a,
        half_below (a + 4),
        half_below (a + 8),
      )

  -- After a double fault, with such a message and the cursor at the start of a row of 51, the
  -- handler makes the monitor print one line, and the sixteen digits at its end are not those of
  -- the address where it occurred: they are those of the low half of that address, as the high
  -- half, above the high half of the error code.
  pub df_handler-misreports :
      (fuel msg sp r : ℕ) (t : List ℕ) (f : Frame) (code : ℕ) (es : List Exit)
      → Message mem fuel msg t
      → r ≤ 50
      → AreWords mem sp (code ∷ pushed f)
      → (s : Shown) × (df_handler mem fuel msg sp (cell_at r 0) ≡ some s)
        × (run_loop (s.exits ++ es)
            ≡ before
                (lines ((t ++ hex 16 (code / 2 ^ 32 + f.rip % 2 ^ 32 * 2 ^ 32)) ∷ []))
                (run_loop es))
  unfolding df_handler
  df_handler-misreports fuel msg sp r t f code es m hr words =
      let value = code / 2 ^ 32 + f.rip % 2 ^ 32 * 2 ^ 32 in
      let read : qword_at mem (sp + 4) ≡ value = rw (straddling sp, words.0, words.1.0) in
      let line = t ++ hex 16 value in
      (
        whole r line,
        rw read (show_line-row mem fuel msg value r t hr m),
        ap (λ (xs : List Exit). run_loop (xs ++ es)) (sym (append-nil (cells r 0 line)))
            ∙ run_loop-rows r (line ∷ []) es (omega arith) (row_fits value m, tt),
      )
