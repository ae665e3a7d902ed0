-- ===== src/Guest/Screen.antt =====
-- asm/libs64.S: characters, strings and numbers on the text screen.
pub mod Cells
pub mod Hex
pub mod Terminal
pub mod Texts
use virt_learn_program.Base.{
  ℕ, zero, suc, ◌+◌, ◌-◌, ◌*◌, ◌/◌, ◌%◌, ◌^◌, bit_and, bit_or, u8, u64, Bool, true, false, leb,
  ◌==◌, if◌then◌else◌, Option, none, some, List, [], ◌∷◌, ◌++◌,
}
use virt_learn_program.Vm.Exits.{Exit, mmio}
use virt_learn_program.Guest.Memory.{Memory}

-- What a routine leaves: `video_current`, and the stores that it made to the screen. The screen is
-- no memory of the guest's (Vm.Setup.Memory), so each store is an exit to the monitor.
pub record Shown : Type 0 where
  pub current : ℕ
  pub exits : List Exit

-- One routine after another: the cursor goes on, the stores add up.
abbrev pub after : List Exit → Shown → Shown
after es s = record s { exits = es ++ s.exits }

abbrev pub after_some : List Exit → Option Shown → Option Shown
after_some es none = none
after_some es (some s) = some (after es s)

-- One step after another, which may run out of rounds.
abbrev pub and_then : Option Shown → (ℕ → Option Shown) → Option Shown
and_then none f = none
and_then (some s) f = after_some s.exits (f s.current)

-- `video_current` less the start, by 160, on 64-bit registers.
unfoldable pub get_current_column : ℕ → ℕ
get_current_column current = u64 (current + (2 ^ 64 - 0xb8000)) % (80 * 2)

-- `si` is the low half of `rsi`; the callers leave nothing above it.
unfoldable pub write_char : ℕ → ℕ → Shown
unfolding get_current_column
write_char si current =
    let cell = bit_or si 0xf00 in
    if cell == 0xf0a
    then record {
      current = u64 (2 ^ 64 - get_current_column current + 80 * 2 + current);
      exits = [];
    }
    else if leb current 0xb9ff0
    then record { current = current + 2; exits = mmio current (u8 cell) ∷ [] }
    else record { current = current; exits = [] }

unfoldable pub putc : ℕ → ℕ → Shown
putc rsi current = write_char (bit_and rsi 0xff) current

unfoldable pub println : ℕ → Shown
println current = putc 10 current

-- `do_puts_loop`, from the byte at `rbx` on, with rounds to spend. Only the low byte of `rax` is
-- loaded, and `putc` drops the others.
unfoldable pub puts_loop : Memory → ℕ → ℕ → ℕ → Option Shown
puts_loop mem zero rbx current = none
puts_loop mem (suc fuel) rbx current =
    let out = putc (mem rbx) current in
    let rest = puts_loop mem fuel (rbx + 1) out.current in
    if mem rbx == 0
    then some (record { current = current; exits = [] })
    else after_some out.exits rest

unfoldable pub puts : Memory → ℕ → ℕ → ℕ → Option Shown
puts mem fuel rsi current =
    if rsi == 0
    then some (record { current = current; exits = [] })
    else puts_loop mem fuel rsi current

abbrev pub number_character : List ℕ
number_character =
    b'0' ∷ b'1' ∷ b'2' ∷ b'3' ∷ b'4' ∷ b'5' ∷ b'6' ∷ b'7' ∷ b'8' ∷ b'9' ∷ b'A' ∷ b'B' ∷ b'C' ∷ b'D'
    ∷ b'E' ∷ b'F' ∷ []

-- The byte at an index, and the NUL after the last.
abbrev pub byte_at : List ℕ → ℕ → ℕ
byte_at [] i = 0
byte_at (b ∷ bs) zero = b
byte_at (b ∷ bs) (suc i) = byte_at bs i

unfoldable pub hex_to_char : ℕ → ℕ
hex_to_char rsi = byte_at number_character (bit_and rsi 0xf)

-- `hex_loop`, for as many rounds as `rdx` counts down. The shift is four times the
-- low byte of the count, as a byte, of which the processor takes six bits.
unfoldable pub hex_loop : ℕ → ℕ → ℕ → Shown
hex_loop zero value current = record { current = current; exits = [] }
hex_loop (suc rdx) value current =
    let cl = u8 (u8 rdx * 4) % 64 in
    let out = putc (hex_to_char (value / 2 ^ cl)) current in
    after out.exits (hex_loop rdx value out.current)

-- `__print_hex_by_byte`. The count is decremented before it is tested, so a count of 0 goes through
-- all the values of the register.
unfoldable pub print_hex_by_byte : ℕ → ℕ → ℕ → Shown
print_hex_by_byte rdx value current = hex_loop (if rdx == 0 then 2 ^ 64 else rdx) value current

unfoldable pub print_byte_value : ℕ → ℕ → Shown
print_byte_value value current = print_hex_by_byte 2 value current

unfoldable pub print_word_value : ℕ → ℕ → Shown
print_word_value value current = print_hex_by_byte 4 value current

unfoldable pub print_dword_value : ℕ → ℕ → Shown
print_dword_value value current = print_hex_by_byte 8 value current

unfoldable pub print_qword_value : ℕ → ℕ → Shown
print_qword_value value current = print_hex_by_byte 16 value current

-- The three bytes that `__get_byte_hex_string` stores at `rdi`.
unfoldable pub get_byte_hex_string : ℕ → List ℕ
get_byte_hex_string value = hex_to_char (value / 2 ^ 4) ∷ hex_to_char value ∷ 0 ∷ []

-- `strlen`, from the byte at index `rax + 1` on, with rounds to spend.
unfoldable pub strlen_loop : Memory → ℕ → ℕ → ℕ → Option ℕ
strlen_loop mem zero rsi rax = none
strlen_loop mem (suc fuel) rsi rax =
    let rest = strlen_loop mem fuel rsi (rax + 1) in if mem (rsi + rax) == 0 then some rax else rest

-- With no string, all bits of the result are set.
unfoldable pub strlen : Memory → ℕ → ℕ → Option ℕ
strlen mem fuel rsi = if rsi == 0 then some (2 ^ 64 - 1) else strlen_loop mem fuel rsi 0
