-- ===== src/Guest/Handlers/Report.antt =====
-- What the monitor prints for an exception of its guest.
use mathlib.Core.List.{[], ◌∷◌, append_assoc, append-nil}
use virt_learn_program.Base.{
  ℕ, zero, suc, ◌*◌, refl, get_elem?, Option, [], ◌∷◌, ◌∙◌, sym, ap, length-append, arith, ◌++◌,
  some, ◌≡◌, length, ◌≤◌, ◌<◌, ◌+◌, List, ℕ,
}
use virt_learn_program.Guest.Memory.{Memory, qword_at}
use virt_learn_program.Guest.Screen.{and_then, Shown, after, println, print_qword_value}
use virt_learn_program.Guest.Screen.Cells.{
  IsString, AreShown, AreShown-append, put_all, put_all-append, put_all-cells, puts-string,
  println-newline, cell_at,
}
use virt_learn_program.Guest.Screen.Hex.{hex, hex-AreShown, length-hex, print_hex_by_byte-put_all}
use virt_learn_program.Guest.Handlers.{show_line, handler}
use virt_learn_program.Vm.Exits.{Exit, run_loop, before}
use virt_learn_program.Vm.Exits.Console.{cells, rows, lines, run_loop-rows}

-- A text of the program's at an address, that leaves room in a row for sixteen digits.
pub record Message (mem : Memory) (fuel : ℕ) (a : ℕ) (bs : List ℕ) : Type 0 where
  pub somewhere : 0 < a
  pub string : IsString mem a bs
  pub shown : AreShown bs
  pub short : length bs < 64
  pub enough : length bs < fuel

abbrev pub whole : ℕ → List ℕ → Shown
whole r bs = record { current = cell_at (r + 1) 0; exits = cells r 0 bs }

ends_line :
    (r : ℕ) (bs ds : List ℕ)
    → r ≤ 50
    → length bs + length ds < 80
    → AreShown bs
    → AreShown ds
    → (let first = put_all bs (cell_at r 0) in
        let second = put_all ds first.current in
        after first.exits (after second.exits (println second.current)))
      ≡ whole r (bs ++ ds)
ends_line r bs ds hr short shown shown' =
    let text = bs ++ ds in
    let first = put_all bs (cell_at r 0) in
    let second = put_all ds first.current in
    let ended = println second.current in
    let width : length text ≡ length bs + length ds = length-append bs ds in
    let all =
      put_all-cells r 0 text hr (omega (arith, width)) (AreShown-append bs ds shown shown') in
    let put = put_all-append bs ds (cell_at r 0) in
    ap (λ (es : List Exit). record { current = ended.current; exits = es })
      (sym (append_assoc first.exits second.exits ended.exits))
    ∙ ap (λ (s : Shown). after s.exits (println s.current)) (sym put ∙ all)
    ∙ rw (println-newline r (0 + length text) hr (omega (arith, width))) (
        ap (λ (es : List Exit). record { current = cell_at (r + 1) 0; exits = es })
          (append-nil (cells r 0 text)))

pub show_line-row :
    (mem : Memory) (fuel a value r : ℕ) (bs : List ℕ)
    → r ≤ 50
    → Message mem fuel a bs
    → show_line mem fuel a value (cell_at r 0) ≡ some (whole r (bs ++ hex 16 value))
unfolding show_line print_qword_value
show_line-row mem fuel a value r bs hr m =
    let width = length-hex 16 value in
    rw
      (
        puts-string mem fuel a (cell_at r 0) bs m.enough m.somewhere m.string,
        print_hex_by_byte-put_all 16 value (put_all bs (cell_at r 0)).current (omega arith)
            (omega arith),
      )
      (ap some (
        ends_line r bs (hex 16 value) hr (omega (arith, m.short, width)) m.shown
          (hex-AreShown 16 value)))

pub and_then-some :
    (f : ℕ → Option Shown) {o : Option Shown} {s t : Shown}
    → o ≡ some s
    → f s.current ≡ some t
    → and_then o f ≡ some (after s.exits t)
and_then-some f {s = s} {t = t} h k = rw (h, k)

pub stacked :
    (r : ℕ) (a b c : List ℕ)
    → after (cells r 0 a) (after (cells (r + 1) 0 b) (whole (r + 1 + 1) c))
      ≡ record { current = cell_at (r + 3) 0; exits = rows r (a ∷ b ∷ c ∷ []) }
stacked r a b c = rw (append-nil (cells (r + 1 + 1) 0 c)) (
    ap
      (λ (n : ℕ). record {
        current = n;
        exits = cells r 0 a ++ (cells (r + 1) 0 b ++ cells (r + 1 + 1) 0 c);
      })
      (omega arith))

-- Eight-byte words from an address up.
abbrev pub AreWords : Memory → ℕ → List ℕ → Type 0
AreWords mem a [] = Unit
AreWords mem a (w ∷ ws) = (qword_at mem a ≡ w) × AreWords mem (a + 8) ws

pub word_at :
    (mem : Memory) (a i w : ℕ) (ws : List ℕ)
    → AreWords mem a ws
    → get_elem? ws i ≡ some w
    → qword_at mem (a + 8 * i) ≡ w
word_at mem a i w [] h e = absurd cc
word_at mem a zero w (x ∷ ws) h e =
    let here : a + 8 * 0 ≡ a = omega arith in rw here (let same : x ≡ w = cc in h.0 ∙ same)
word_at mem a (suc i) w (x ∷ ws) h e =
    let next : a + 8 * suc i ≡ a + 8 + 8 * i = omega arith in
    rw next (word_at mem (a + 8) i w ws h.1 e)

-- What a processor in 64-bit mode pushes for an exception.
pub record Frame : Type 0 where
  pub rip : ℕ
  pub cs : ℕ
  pub rflags : ℕ
  pub rsp : ℕ
  pub ss : ℕ

abbrev pub pushed : Frame → List ℕ
pushed f = f.rip ∷ f.cs ∷ f.rflags ∷ f.rsp ∷ f.ss ∷ []

pub row_fits :
    {mem : Memory} {fuel a : ℕ} {bs : List ℕ} (value : ℕ)
    → Message mem fuel a bs
    → length (bs ++ hex 16 value) ≤ 80
row_fits {bs = bs} value m =
    omega (arith, m.short, length-append bs (hex 16 value), length-hex 16 value)

module _ (mem : Memory) (fuel msg1 msg2 msg3 sp r : ℕ) (t1 t2 t3 : List ℕ)
    (m1 : Message mem fuel msg1 t1) (m2 : Message mem fuel msg2 t2) (m3 : Message mem fuel msg3 t3)
    (hr : r ≤ 48) where
  -- The handler's text.
  abbrev report : ℕ → ℕ → ℕ → List (List ℕ)
  report a b c = (t1 ++ hex 16 a) ∷ (t2 ++ hex 16 b) ∷ (t3 ++ hex 16 c) ∷ []

  handler-rows :
      (w0 w1 w4 : ℕ)
      → qword_at mem sp ≡ w0
      → qword_at mem (sp + 8) ≡ w1
      → qword_at mem (sp + 32) ≡ w4
      → handler mem fuel msg1 msg2 msg3 sp (cell_at r 0)
        ≡ some (record { current = cell_at (r + 3) 0; exits = rows r (report w1 w0 w4) })
  unfolding handler
  handler-rows w0 w1 w4 e0 e1 e4 =
      let l1 = show_line-row mem fuel msg1 w1 r t1 (omega arith) m1 in
      let l2 = show_line-row mem fuel msg2 w0 (r + 1) t2 (omega arith) m2 in
      let l3 = show_line-row mem fuel msg3 w4 (r + 1 + 1) t3 (omega arith) m3 in
      rw (e0, e1, e4)
        (and_then-some
            (λ c1. and_then (show_line mem fuel msg2 w0 c1) λ c2. show_line mem fuel msg3 w4 c2) l1
            (and_then-some (λ c2. show_line mem fuel msg3 w4 c2) l2 l3)
          ∙ ap some (stacked r (t1 ++ hex 16 w1) (t2 ++ hex 16 w0) (t3 ++ hex 16 w4)))

  handler-prints :
      (w0 w1 w4 : ℕ) (es : List Exit)
      → qword_at mem sp ≡ w0
      → qword_at mem (sp + 8) ≡ w1
      → qword_at mem (sp + 32) ≡ w4
      → (s : Shown) × (handler mem fuel msg1 msg2 msg3 sp (cell_at r 0) ≡ some s)
        × (s.current ≡ cell_at (r + 3) 0)
        × (run_loop (s.exits ++ es) ≡ before (lines (report w1 w0 w4)) (run_loop es))
  handler-prints w0 w1 w4 es e0 e1 e4 = (
    record { current = cell_at (r + 3) 0; exits = rows r (report w1 w0 w4) },
    handler-rows w0 w1 w4 e0 e1 e4,
    refl,
    run_loop-rows r (report w1 w0 w4) es (omega arith)
        (row_fits w1 m1, (row_fits w0 m2, (row_fits w4 m3, tt))),
  )

  -- The handler's three messages are strings in memory, with fewer than 64 characters each and no
  -- newline among them, the cursor is at the start of one of the first 49 rows, and the stack is as
  -- after an exception that pushes an error code (#TS, #NP, #GP). Then the handler prints, and
  -- makes the monitor print, three lines: each is a message and sixteen digits, which are those of
  -- the address where the exception occurred, of the error code and of the stack pointer. The
  -- monitor goes on with the exits that follow, and the cursor is three rows further down.
  pub handler-reports :
      (f : Frame) (code : ℕ) (es : List Exit)
      → AreWords mem sp (code ∷ pushed f)
      → (s : Shown) × (handler mem fuel msg1 msg2 msg3 sp (cell_at r 0) ≡ some s)
        × (s.current ≡ cell_at (r + 3) 0)
        × (run_loop (s.exits ++ es) ≡ before (lines (report f.rip code f.rsp)) (run_loop es))
  handler-reports f code es words =
      handler-prints code f.rip f.rsp es words.0 words.1.0
        (word_at mem sp 4 f.rsp (code ∷ pushed f) words refl)

  -- With the same messages and cursor, but the stack as after an exception that pushes no error
  -- code (#DE, NMI, #OF, #UD, #NM, #MC), the digits of the three lines are those of the code
  -- segment's selector, of the address where the exception occurred and of the stack segment's
  -- selector.
  pub handler-misreports :
      (f : Frame) (es : List Exit)
      → AreWords mem sp (pushed f)
      → (s : Shown) × (handler mem fuel msg1 msg2 msg3 sp (cell_at r 0) ≡ some s)
        × (s.current ≡ cell_at (r + 3) 0)
        × (run_loop (s.exits ++ es) ≡ before (lines (report f.cs f.rip f.ss)) (run_loop es))
  handler-misreports f es words =
      handler-prints f.rip f.cs f.ss es words.0 words.1.0
        (word_at mem sp 4 f.ss (pushed f) words refl)
