-- ===== src/Vm/Args.antt =====
-- vm.c: the command line. Characters are their codes.
pub mod Digits
pub mod Size
pub mod Options
use virt_learn_program.Base.{
  ℕ, zero, suc, ◌+◌, ◌-◌, ◌*◌, Bool, true, false, ◌&&◌, ◌||◌, not, leb, ltb, ◌==◌, if◌then◌else◌,
  Option, none, some, List, [], ◌∷◌, drop, get_elem?, u64, ℤ, pos, negsuc, Outcome, ok, fault,
  uninitialised, expect, ◌>>=◌,
}
use mathlib.Core.Option

abbrev pub Text : Type 0
Text = List ℕ

-- `optarg[i]`, up to the NUL that ends it.
abbrev pub char_at : Text → ℕ → ℕ
char_at s i = Option.get_or (get_elem? s i) 0

-- `isxdigit` and `isalpha` of the C locale.
abbrev pub is_xdigit : ℕ → Bool
is_xdigit c = (leb b'0' c && leb c b'9') || (leb b'A' c && leb c b'F') || (leb b'a' c && leb c b'f')

abbrev pub is_alpha : ℕ → Bool
is_alpha c = (leb b'A' c && leb c b'Z') || (leb b'a' c && leb c b'z')

-- What a digit puts into `val`; where no branch is taken `val` keeps what it had.
unfoldable pub digit_value : ℕ → Option ℕ → Option ℕ
digit_value c val =
    if leb b'0' c && leb c b'9'
    then some (c - b'0')
    else if leb b'A' c && ltb c b'F'
    then some (c - b'A' + 10)
    else if leb b'a' c && ltb c b'f'
    then some (c - b'a' + 10)
    else val

-- The variables of the size loop: what is left of the text, `vm_memory_size` and `val`.
pub record Scan : Type 0 where
  pub rest : Text
  pub size : ℕ  -- size_t
  pub val : Option ℕ  -- int, without a value at first

-- The loop `while (i < len)`.
unfoldable pub scan_digits : ℕ → Text → ℕ → Option ℕ → Outcome Scan
scan_digits base [] size val = ok (record { rest = []; size = size; val = val })
scan_digits base (c ∷ cs) size val =
    let val' = digit_value c val in
    let more =
      expect uninitialised val' >>= λ v. scan_digits base cs (u64 (u64 (size * base) + v)) val' in
    if is_xdigit c then more else ok (record { rest = c ∷ cs; size = size; val = val })

-- The multiplier of a unit, and `none` for any other letter.
unfoldable pub unit : ℕ → Option ℕ
unit c =
    if c == b'K' || c == b'k'
    then some 0x400
    else if c == b'M' || c == b'm'
    then some 0x100000
    else if c == b'g' || c == b'G'
    then some 0x40000000
    else none

-- What the case of `-m` leaves: whether it goes on, `vm_memory_size` and `val`.
pub record Sized : Type 0 where
  pub accepted : Bool
  pub size : ℕ
  pub val : Option ℕ

-- The unit after the digits.
unfoldable pub apply_unit : Scan → Sized
unfolding unit
apply_unit r =
    let c = char_at r.rest 0 in
    let refused : Sized = record { accepted = false; size = r.size; val = r.val } in
    if not (is_alpha c) || is_alpha (char_at r.rest 1) then refused else elim (unit c) [
      | none ↦ refused
      | some k ↦ record { accepted = true; size = u64 (r.size * k); val = r.val }
    ]

-- The case of `-m`.
unfoldable pub parse_size : Text → Option ℕ → Outcome Sized
unfolding scan_digits apply_unit
parse_size optarg val =
    (if char_at optarg 0 == b'0' && char_at optarg 1 == b'x'
      then scan_digits 0x10 (drop 2 optarg) 0 val
      else scan_digits 10 optarg 0 val)
    >>= λ r. ok (apply_unit r)

-- What `getopt_long` gives, one option at a time.
pub data CliOption : Type 0 where
  help : CliOption
  mem : Text → CliOption
  smp : Text → CliOption
  file : Text → CliOption
  other : CliOption

pub record Settings : Type 0 where
  pub cpu_nums : ℤ
  pub vm_memory_size : ℕ
  pub filename : Option Text

abbrev pub defaults : Settings
defaults = record { cpu_nums = pos 1; vm_memory_size = 0x200000; filename = none }

-- The loop of `parse_argv`, with the library's `atoi`; its result is 0, or -1 on a bad size.
unfoldable pub parse_from :
    (Text → ℤ) → Settings → Option ℕ → List CliOption → Outcome (Settings × ℤ)
unfolding parse_size
parse_from atoi g val [] = ok (g, pos 0)
parse_from atoi g val (help ∷ os) = parse_from atoi g val os
parse_from atoi g val (smp s ∷ os) = parse_from atoi (record g { cpu_nums = atoi s }) val os
parse_from atoi g val (file s ∷ os) = parse_from atoi (record g { filename = some s }) val os
parse_from atoi g val (other ∷ os) = parse_from atoi g val os
parse_from atoi g val (mem s ∷ os) = parse_size s val >>= λ r.
    let g' = record g { vm_memory_size = r.size } in
    let rest = parse_from atoi g' r.val os in if r.accepted then rest else ok (g', negsuc 0)

unfoldable pub parse_argv : (Text → ℤ) → List CliOption → Outcome (Settings × ℤ)
unfolding parse_from
parse_argv atoi os = parse_from atoi defaults none os
