-- ===== src/Vm/Args/Size.antt =====
-- What the size option means: a number with a unit.
use virt_learn_program.Vm.Args.Digits.{
  scan_hexadecimal, scan_decimal, last_of, number_from, digit_char, AreBelow,
}
use virt_learn_program.Base.{
  ◌∙◌, none, false, ◌&&◌, ◌==◌, ◌++◌, ap, map, arith, ◌>>=◌, ◌+◌, some, uninitialised, fault, ◌⊎◌,
  Outcome, List, ℕ, ◌*◌, ◌≡◌, refl, true, Option, [], ◌∷◌, u64, ok,
}
use virt_learn_program.Vm.Args.{
  unit, is_xdigit, is_alpha, Text, char_at, digit_value, parse_size, Sized, scan_digits, apply_unit,
}

-- The three units, in either case, and what they stand for.
pub data IsUnit : ℕ → ℕ → Type 0 where
  kilo : IsUnit b'K' 0x400
  kilo_lower : IsUnit b'k' 0x400
  mega : IsUnit b'M' 0x100000
  mega_lower : IsUnit b'm' 0x100000
  giga : IsUnit b'G' 0x40000000
  giga_lower : IsUnit b'g' 0x40000000

-- The text goes on with something else than a digit, and not with the `x` of a prefix.
pub record EndsNumber (cs : Text) : Type 0 where
  pub no_digit : is_xdigit (char_at cs 0) ≡ false
  pub no_prefix : (char_at cs 0 == b'x') ≡ false

unit-EndsNumber : (u k : ℕ) (cs : Text) → IsUnit u k → EndsNumber (u ∷ cs)
unit-EndsNumber u k cs kilo = record { no_digit = refl; no_prefix = refl }
unit-EndsNumber u k cs _ = record { no_digit = refl; no_prefix = refl }

-- The loop stops there.
scan_stops :
    (base size : ℕ) (cs : Text) (val : Option ℕ)
    → EndsNumber cs
    → scan_digits base cs size val ≡ ok (record { rest = cs; size = size; val = val })
unfolding scan_digits
scan_stops base size [] val h = refl
scan_stops base size (c ∷ cs) val h = rw h.no_digit

apply_unit_lem :
    (u k size : ℕ) (cs : Text) (val : Option ℕ)
    → IsUnit u k
    → is_alpha (char_at cs 0) ≡ false
    → apply_unit (record { rest = u ∷ cs; size = size; val = val })
      ≡ record { accepted = true; size = u64 (size * k); val = val }
unfolding apply_unit
apply_unit_lem u k size cs val kilo h = rw h
apply_unit_lem u k size cs val kilo_lower h = rw h
apply_unit_lem u k size cs val mega h = rw h
apply_unit_lem u k size cs val mega_lower h = rw h
apply_unit_lem u k size cs val giga h = rw h
apply_unit_lem u k size cs val giga_lower h = rw h

-- The size that `n` of a unit is.
abbrev sized : ℕ → ℕ → Option ℕ → Sized
sized n k val = record { accepted = true; size = u64 (n * k); val = val }

finish :
    (base u k n : ℕ) (cs : Text) (val : Option ℕ)
    → IsUnit u k
    → is_alpha (char_at cs 0) ≡ false
    → (scan_digits base (u ∷ cs) (u64 n) val >>= λ r. ok (apply_unit r)) ≡ ok (sized n k val)
finish base u k n cs val unit_of h = rw (
  scan_stops base (u64 n) (u ∷ cs) val (unit-EndsNumber u k cs unit_of),
  apply_unit_lem u k (u64 n) cs val unit_of h,
  wraps unit_of,
)
  where
    wraps : {u k : ℕ} → IsUnit u k → u64 (u64 n * k) ≡ u64 (n * k)
    wraps kilo = omega arith
    wraps kilo_lower = omega arith
    wraps mega = omega arith
    wraps mega_lower = omega arith
    wraps giga = omega arith
    wraps giga_lower = omega arith

not_hexadecimal :
    (ds : List ℕ) (cs : Text)
    → AreBelow 10 ds
    → EndsNumber cs
    → let s = map digit_char ds ++ cs in (char_at s 0 == b'0' && char_at s 1 == b'x') ≡ false
not_hexadecimal [] cs h end = let d = end.no_digit in let x = end.no_prefix in ground arith
not_hexadecimal (d ∷ []) cs h end = let x = end.no_prefix in rw x (ground arith)
not_hexadecimal (d ∷ e ∷ ds) cs h end = ground arith

parse_digits :
    (ds : List ℕ) (cs : Text) (val : Option ℕ)
    → AreBelow 10 ds
    → EndsNumber cs
    → parse_size (map digit_char ds ++ cs) val
      ≡ (scan_digits 10 cs (u64 (number_from 10 0 ds)) (last_of val ds) >>= λ r. ok (apply_unit r))
unfolding parse_size
parse_digits ds cs val h end = rw (not_hexadecimal ds cs h end, scan_decimal ds cs val h)

-- Decimal digits and a unit, in either case, give the number times the unit, modulo 2 ^ 64. What
-- follows the unit is not looked at if it does not begin with a letter.
pub parse_size_decimal :
    (ds : List ℕ) (u k : ℕ) (cs : Text) (val : Option ℕ)
    → AreBelow 10 ds
    → IsUnit u k
    → is_alpha (char_at cs 0) ≡ false
    → parse_size (map digit_char ds ++ u ∷ cs) val
      ≡ ok (record { accepted = true; size = u64 (number_from 10 0 ds * k); val = last_of val ds })
parse_size_decimal ds u k cs val h unit_of tail =
    parse_digits ds (u ∷ cs) val h (unit-EndsNumber u k cs unit_of)
    ∙ finish 10 u k (number_from 10 0 ds) cs (last_of val ds) unit_of tail

-- Decimal digits that are followed by no unit, or by a letter after the unit, are refused; the
-- memory size is then already the number.
pub parse_size_refused :
    (ds : List ℕ) (cs : Text) (val : Option ℕ)
    → AreBelow 10 ds
    → EndsNumber cs
    → (unit (char_at cs 0) ≡ none) ⊎ (is_alpha (char_at cs 1) ≡ true)
    → parse_size (map digit_char ds ++ cs) val
      ≡ ok (record { accepted = false; size = u64 (number_from 10 0 ds); val = last_of val ds })
parse_size_refused ds cs val h end bad =
    parse_digits ds cs val h end
    ∙ rw (scan_stops 10 (u64 (number_from 10 0 ds)) cs (last_of val ds) end)
        (ap ok (refused cs (u64 (number_from 10 0 ds)) (last_of val ds) bad))
  where
    refused :
        (cs : Text) (size : ℕ) (val : Option ℕ)
        → (unit (char_at cs 0) ≡ none) ⊎ (is_alpha (char_at cs 1) ≡ true)
        → apply_unit (record { rest = cs; size = size; val = val })
          ≡ record { accepted = false; size = size; val = val }
    refused cs size val bad = unfold apply_unit in ground arith

-- After `0x`, digits up to 14 and a unit give the hexadecimal number times the unit, modulo 2 ^ 64.
pub parse_size_hexadecimal :
    (ds : List ℕ) (u k : ℕ) (val : Option ℕ)
    → AreBelow 15 ds
    → IsUnit u k
    → parse_size (b'0' ∷ b'x' ∷ map digit_char ds ++ u ∷ []) val
      ≡ ok (record { accepted = true; size = u64 (number_from 16 0 ds * k); val = last_of val ds })
unfolding parse_size
parse_size_hexadecimal ds u k val h unit_of =
    rw (scan_hexadecimal ds (u ∷ []) val h)
      (finish 16 u k (number_from 16 0 ds) [] (last_of val ds) unit_of refl)

-- The outcome when the digit 15 stands for whatever `val` holds.
abbrev pub repeats : ℕ → ℕ → Option ℕ → Outcome Sized
repeats n k none = fault uninitialised
repeats n k (some d) = ok (sized (n * 16 + d) k (some d))

scan_fifteen :
    (c u k n : ℕ) (val : Option ℕ)
    → (c ≡ b'f') ⊎ (c ≡ b'F')
    → IsUnit u k
    → (scan_digits 16 (c ∷ u ∷ []) (u64 n) val >>= λ r. ok (apply_unit r)) ≡ repeats n k val
scan_fifteen c u k n none fifteen unit_of = unfold scan_digits digit_value in ground arith
scan_fifteen c u k n (some d) fifteen unit_of =
    rw (scans, ← finish 16 u k (n * 16 + d) [] (some d) unit_of refl)
      (ap (λ (m : ℕ). scan_digits 16 (u ∷ []) m (some d) >>= λ r. ok (apply_unit r)) (omega arith))
  where
    scans :
        scan_digits 16 (c ∷ u ∷ []) (u64 n) (some d)
        ≡ scan_digits 16 (u ∷ []) (u64 (u64 (u64 n * 16) + d)) (some d)
    scans = unfold scan_digits digit_value in ground arith

-- A last hexadecimal digit `f` or `F` is not read as 15: it counts as the digit before it, and with
-- no digit before it in any option, a variable without a value is added.
pub parse_size_fifteen :
    (ds : List ℕ) (c u k : ℕ) (val : Option ℕ)
    → AreBelow 15 ds
    → (c ≡ b'f') ⊎ (c ≡ b'F')
    → IsUnit u k
    → parse_size (b'0' ∷ b'x' ∷ map digit_char ds ++ c ∷ u ∷ []) val
      ≡ repeats (number_from 16 0 ds) k (last_of val ds)
unfolding parse_size
parse_size_fifteen ds c u k val h fifteen unit_of =
    rw (scan_hexadecimal ds (c ∷ u ∷ []) val h)
      (scan_fifteen c u k (number_from 16 0 ds) (last_of val ds) fifteen unit_of)
