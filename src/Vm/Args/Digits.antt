-- ===== src/Vm/Args/Digits.antt =====
-- The size loop over a run of digits.
use virt_learn_program.Base.{
  true, ℕ, ◌+◌, ◌-◌, ◌*◌, ◌<◌, ◌≡◌, refl, arith, ◌∙◌, Option, some, List, [], ◌∷◌, ◌++◌, map, u64,
  ltb, if◌then◌else◌,
}
use virt_learn_program.Vm.Args.{Text, is_xdigit, digit_value, scan_digits}

-- The character of a digit, in lower case.
abbrev pub digit_char : ℕ → ℕ
digit_char d = if ltb d 10 then b'0' + d else b'a' + d - 10

abbrev pub AreBelow : ℕ → List ℕ → Type 0
AreBelow n [] = Unit
AreBelow n (d ∷ ds) = (d < n) × AreBelow n ds

-- The number that digits write, from the number before them.
abbrev pub number_from : ℕ → ℕ → List ℕ → ℕ
number_from base n [] = n
number_from base n (d ∷ ds) = number_from base (n * base + d) ds

abbrev pub last_of : Option ℕ → List ℕ → Option ℕ
last_of val [] = val
last_of val (d ∷ ds) = last_of (some d) ds

digit_char-is_xdigit : (d : ℕ) → d < 15 → is_xdigit (digit_char d) ≡ true
digit_char-is_xdigit d h = ground arith

digit_char-value : (d : ℕ) (val : Option ℕ) → d < 15 → digit_value (digit_char d) val ≡ some d
unfolding digit_value
digit_char-value d val h = ground arith

scan_digit :
    (base d size : ℕ) (cs : Text) (val : Option ℕ)
    → d < 15
    → scan_digits base (digit_char d ∷ cs) size val
      ≡ scan_digits base cs (u64 (u64 (size * base) + d)) (some d)
unfolding scan_digits
scan_digit base d size cs val h = rw (digit_char-is_xdigit d h, digit_char-value d val h)

-- The loop's own sum, which wraps at every digit.
abbrev accumulate : ℕ → ℕ → List ℕ → ℕ
accumulate base size [] = size
accumulate base size (d ∷ ds) = accumulate base (u64 (u64 (size * base) + d)) ds

scan_digits-map :
    (base : ℕ) (ds : List ℕ) (cs : Text) (size : ℕ) (val : Option ℕ)
    → AreBelow 15 ds
    → scan_digits base (map digit_char ds ++ cs) size val
      ≡ scan_digits base cs (accumulate base size ds) (last_of val ds)
scan_digits-map base [] cs size val h = refl
scan_digits-map base (d ∷ ds) cs size val h =
    scan_digit base d size (map digit_char ds ++ cs) val h.0
    ∙ scan_digits-map base ds cs (u64 (u64 (size * base) + d)) (some d) h.1

-- The wrapped sum is the number that the digits write, modulo 2 ^ 64.
accumulate-number_from :
    (base : ℕ)
    → ((n d : ℕ) → u64 (u64 (u64 n * base) + d) ≡ u64 (n * base + d))
    → (ds : List ℕ) (n : ℕ) → accumulate base (u64 n) ds ≡ u64 (number_from base n ds)
accumulate-number_from base wraps [] n = refl
accumulate-number_from base wraps (d ∷ ds) n =
    rw (wraps n d) (accumulate-number_from base wraps ds (n * base + d))

pub scan_decimal :
    (ds : List ℕ) (cs : Text) (val : Option ℕ)
    → AreBelow 10 ds
    → scan_digits 10 (map digit_char ds ++ cs) 0 val
      ≡ scan_digits 10 cs (u64 (number_from 10 0 ds)) (last_of val ds)
scan_decimal ds cs val h =
    rw (← accumulate-number_from 10 (λ n d. omega arith) ds 0)
      (scan_digits-map 10 ds cs 0 val (widen ds h))
  where
    widen : (ds : List ℕ) → AreBelow 10 ds → AreBelow 15 ds
    widen [] h = tt
    widen (d ∷ ds) h = (omega arith, widen ds h.1)

pub scan_hexadecimal :
    (ds : List ℕ) (cs : Text) (val : Option ℕ)
    → AreBelow 15 ds
    → scan_digits 16 (map digit_char ds ++ cs) 0 val
      ≡ scan_digits 16 cs (u64 (number_from 16 0 ds)) (last_of val ds)
scan_hexadecimal ds cs val h =
    rw (← accumulate-number_from 16 (λ n d. omega arith) ds 0) (scan_digits-map 16 ds cs 0 val h)
