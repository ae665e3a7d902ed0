-- ===== src/Guest/Screen/Cells.antt =====
-- Where the characters of the screen's routines go.
use mathlib.Core.Path.{subst}
use mathlib.Core.List.{append_assoc}
use virt_learn_program.Base.{sym, ◌∙◌}
use virt_learn_program.Base.{
  refl, ◌++◌, zero, false, ◌==◌, suc, some, ap, ◌%◌, bit_and-byte, bit_or-above, arith, ◌≢◌, ◌≡◌,
  ◌*◌, length, bit_or, [], ◌≤◌, ◌∷◌, ◌<◌, ◌+◌, ℕ, List,
}
use virt_learn_program.Guest.Screen.{
  Exit, ℕ, List, Memory, Shown, after, get_current_column, write_char, putc, println, puts_loop,
  puts, strlen_loop, strlen,
}
use virt_learn_program.Vm.Exits.{Exit, mmio}
use virt_learn_program.Vm.Exits.Console.{cells}

-- A character that moves on by one cell.
abbrev pub IsShown : ℕ → Type 0
IsShown b = (b < 256) × (b ≢ 10)

abbrev pub AreShown : List ℕ → Type 0
AreShown [] = Unit
AreShown (b ∷ bs) = IsShown b × AreShown bs

-- The cell of a row and a column.
abbrev pub cell_at : ℕ → ℕ → ℕ
cell_at r c = 0xb8000 + 160 * r + 2 * c

abbrev left : ℕ → List Exit → Shown
left n es = record { current = n; exits = es }

-- Characters one after another.
abbrev pub put_all : List ℕ → ℕ → Shown
put_all [] current = record { current = current; exits = [] }
put_all (b ∷ bs) current = let out = putc b current in after out.exits (put_all bs out.current)

pub bit_or-attribute : (b : ℕ) → b < 256 → bit_or b 0xf00 ≡ b + 0xf00
bit_or-attribute b h = bit_or-above 8 15 b h

pub putc-shown :
    (r c b : ℕ)
    → r ≤ 50
    → c < 80
    → IsShown b
    → putc b (cell_at r c)
      ≡ record { current = cell_at r (c + 1); exits = mmio (cell_at r c) b ∷ [] }
unfolding putc write_char
putc-shown r c b hr hc h = rw (bit_and-byte b) (
    let small : b % 256 ≡ b = omega arith in
    rw (small, bit_or-attribute b (omega arith)) (ground arith))

pub println-newline :
    (r c : ℕ)
    → r ≤ 50
    → c < 80
    → println (cell_at r c) ≡ record { current = cell_at (r + 1) 0; exits = [] }
unfolding println putc write_char get_current_column
println-newline r c hr hc = ap (λ (n : ℕ). left n []) (omega arith)

pub put_all-cells :
    (r c : ℕ) (bs : List ℕ)
    → r ≤ 50
    → c + length bs ≤ 80
    → AreShown bs
    → put_all bs (cell_at r c)
      ≡ record { current = cell_at r (c + length bs); exits = cells r c bs }
put_all-cells r c [] hr hc h = ap (λ (n : ℕ). left n []) (omega arith)
put_all-cells r c (b ∷ bs) hr hc h =
    rw (putc-shown r c b hr (omega arith) h.0, put_all-cells r (c + 1) bs hr (omega arith) h.1)
      (ap (λ (n : ℕ). left n (cells r c (b ∷ bs))) (omega arith))

-- The string at an address: its bytes, and the NUL after them.
abbrev pub IsString : Memory → ℕ → List ℕ → Type 0
IsString mem a [] = mem a ≡ 0
IsString mem a (b ∷ bs) = (mem a ≡ b) × (0 < b) × IsString mem (a + 1) bs

puts_loop-string :
    (mem : Memory) (fuel a current : ℕ) (bs : List ℕ)
    → length bs < fuel
    → IsString mem a bs
    → puts_loop mem fuel a current ≡ some (put_all bs current)
unfolding puts_loop
puts_loop-string mem zero a current bs enough h = absurd (omega arith)
puts_loop-string mem (suc fuel) a current [] enough h = rw h
puts_loop-string mem (suc fuel) a current (b ∷ bs) enough h =
    let more : (b == 0) ≡ false = ground (arith, h.1) in
    rw (h.0, more, puts_loop-string mem fuel (a + 1) (putc b current).current bs (omega arith) h.2)

-- A string is put character by character; a round more than its length is enough.
pub puts-string :
    (mem : Memory) (fuel a current : ℕ) (bs : List ℕ)
    → length bs < fuel
    → 0 < a
    → IsString mem a bs
    → puts mem fuel a current ≡ some (put_all bs current)
unfolding puts
puts-string mem fuel a current bs enough given h =
    let some_string : (a == 0) ≡ false = ground arith in
    rw (some_string, puts_loop-string mem fuel a current bs enough h)

strlen_loop-string :
    (mem : Memory) (fuel rsi rax : ℕ) (bs : List ℕ)
    → length bs < fuel
    → IsString mem (rsi + rax) bs
    → strlen_loop mem fuel rsi rax ≡ some (rax + length bs)
unfolding strlen_loop
strlen_loop-string mem zero rsi rax bs enough h = absurd (omega arith)
strlen_loop-string mem (suc fuel) rsi rax [] enough h = rw h (ap some (omega arith))
strlen_loop-string mem (suc fuel) rsi rax (b ∷ bs) enough h =
    let more : (b == 0) ≡ false = ground (arith, h.1) in
    let next : rsi + rax + 1 ≡ rsi + (rax + 1) = omega arith in
    let rest =
      strlen_loop-string mem fuel rsi (rax + 1) bs (omega arith)
        (subst (λ (n : ℕ). IsString mem n bs) next h.2) in
    rw (h.0, more, rest) (ap some (omega arith))

-- The length of a string is the number of its bytes.
pub strlen-string :
    (mem : Memory) (fuel a : ℕ) (bs : List ℕ)
    → length bs < fuel
    → 0 < a
    → IsString mem a bs
    → strlen mem fuel a ≡ some (length bs)
unfolding strlen
strlen-string mem fuel a bs enough given h =
    let some_string : (a == 0) ≡ false = ground arith in
    let first : a ≡ a + 0 = omega arith in
    rw
      (
        some_string,
        strlen_loop-string mem fuel a 0 bs enough (subst (λ (n : ℕ). IsString mem n bs) first h),
      )
      (ap some (omega arith))

pub put_all-append :
    (xs ys : List ℕ) (current : ℕ)
    → put_all (xs ++ ys) current
      ≡ (let first = put_all xs current in after first.exits (put_all ys first.current))
put_all-append [] ys current = refl
put_all-append (x ∷ xs) ys current =
    let out = putc x current in
    let first = put_all xs out.current in
    ap (after out.exits) (put_all-append xs ys out.current)
    ∙ ap (left (put_all ys first.current).current)
        (sym (append_assoc out.exits first.exits (put_all ys first.current).exits))

pub AreShown-append : (xs ys : List ℕ) → AreShown xs → AreShown ys → AreShown (xs ++ ys)
AreShown-append [] ys h k = k
AreShown-append (x ∷ xs) ys h k = (h.0, AreShown-append xs ys h.1 k)
