-- ===== src/Guest/Screen/Texts.antt =====
-- Routines that put a text, whatever the cursor is.
use mathlib.Core.List.{append-nil}
use virt_learn_program.Base.{
  sym, refl, length, ℕ, List, Option, some, [], ◌∷◌, ◌++◌, ap, ◌≡◌, ◌<◌, arith,
}
use virt_learn_program.Vm.Exits.{Exit}
use virt_learn_program.Guest.Memory.{Memory}
use virt_learn_program.Guest.Screen.{
  Shown, and_then, puts, putc, println, print_dword_value, print_qword_value,
}
use virt_learn_program.Guest.Screen.Cells.{IsString, put_all, put_all-append, puts-string}
use virt_learn_program.Guest.Screen.Hex.{hex, print_hex_by_byte-put_all}

-- From each cursor, the routine ends, and what it leaves is what putting the characters one by one
-- leaves.
abbrev pub Puts : (ℕ → Option Shown) → List ℕ → Type 0
Puts routine text = (current : ℕ) → routine current ≡ some (put_all text current)

pub nothing-Puts : Puts (λ c. some (record { current = c; exits = [] })) []
nothing-Puts current = refl

pub putc-Puts : (b : ℕ) → Puts (λ c. some (putc b c)) (b ∷ [])
putc-Puts b current =
    ap (λ (es : List Exit). some (record { current = (putc b current).current; exits = es }))
      (sym (append-nil (putc b current).exits))

pub println-Puts : Puts (λ c. some (println c)) (10 ∷ [])
unfolding println
println-Puts = putc-Puts 10

pub print_dword_value-Puts : (v : ℕ) → Puts (λ c. some (print_dword_value v c)) (hex 8 v)
unfolding print_dword_value
print_dword_value-Puts v current =
    ap some (print_hex_by_byte-put_all 8 v current (omega arith) (omega arith))

pub print_qword_value-Puts : (v : ℕ) → Puts (λ c. some (print_qword_value v c)) (hex 16 v)
unfolding print_qword_value
print_qword_value-Puts v current =
    ap some (print_hex_by_byte-put_all 16 v current (omega arith) (omega arith))

-- A string in memory, short enough for the rounds.
pub record TextAt (mem : Memory) (fuel : ℕ) (a : ℕ) (bs : List ℕ) : Type 0 where
  pub somewhere : 0 < a
  pub string : IsString mem a bs
  pub enough : length bs < fuel

pub puts-Puts :
    (mem : Memory) (fuel a : ℕ) (bs : List ℕ) → TextAt mem fuel a bs → Puts (puts mem fuel a) bs
puts-Puts mem fuel a bs m current = puts-string mem fuel a current bs m.enough m.somewhere m.string

pub and_then-Puts :
    (f g : ℕ → Option Shown) (xs ys : List ℕ)
    → Puts f xs
    → Puts g ys
    → Puts (λ c. and_then (f c) g) (xs ++ ys)
and_then-Puts f g xs ys p q current =
    rw (p current, q (put_all xs current).current, put_all-append xs ys current)
