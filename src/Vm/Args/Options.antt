-- ===== src/Vm/Args/Options.antt =====
-- The settings that a whole command line leaves.
use virt_learn_program.Vm.Args.{
  Text, CliOption, mem, smp, file, help, other, Settings, parse_from, parse_argv,
}
use virt_learn_program.Vm.Args.Digits.{digit_char, AreBelow, number_from, last_of}
use virt_learn_program.Vm.Args.Size.{IsUnit, parse_size_decimal}
use virt_learn_program.Base.{
  ◌∷◌, none, ◌++◌, pos, [], ◌*◌, ok, map, ◌≡◌, u64, some, ℤ, Option, List, ℕ, refl,
}

-- A text that is a decimal number with a unit, and nothing else.
pub record IsSize (s : Text) : Type 0 where
  pub digits : List ℕ
  pub letter : ℕ
  pub factor : ℕ
  pub decimal : AreBelow 10 digits
  pub unit_of : IsUnit letter factor
  pub spelled : s ≡ map digit_char digits ++ letter ∷ []

-- Every size option has such a text.
abbrev pub AreSizes : List CliOption → Type 0
AreSizes [] = Unit
AreSizes (mem s ∷ os) = IsSize s × AreSizes os
AreSizes (_ ∷ os) = AreSizes os

-- The value of the last option of a kind, or `default` if there is none.
abbrev pub last_size : ℕ → (os : List CliOption) → AreSizes os → ℕ
last_size default [] sizes = default
last_size default (mem s ∷ os) sizes =
    let z = sizes.0 in last_size (u64 (number_from 10 0 z.digits * z.factor)) os sizes.1
last_size default (help ∷ os) sizes = last_size default os sizes
last_size default (smp s ∷ os) sizes = last_size default os sizes
last_size default (file s ∷ os) sizes = last_size default os sizes
last_size default (other ∷ os) sizes = last_size default os sizes

abbrev pub last_count : (Text → ℤ) → ℤ → List CliOption → ℤ
last_count atoi default [] = default
last_count atoi default (smp s ∷ os) = last_count atoi (atoi s) os
last_count atoi default (_ ∷ os) = last_count atoi default os

abbrev pub last_file : Option Text → List CliOption → Option Text
last_file default [] = default
last_file default (file s ∷ os) = last_file (some s) os
last_file default (_ ∷ os) = last_file default os

module _ (atoi : Text → ℤ) where
  parse_from_lem :
      (g : Settings) (val : Option ℕ) (os : List CliOption) (sizes : AreSizes os)
      → parse_from atoi g val os
        ≡ ok (
          record {
            cpu_nums = last_count atoi g.cpu_nums os;
            vm_memory_size = last_size g.vm_memory_size os sizes;
            filename = last_file g.filename os;
          },
          pos 0,
        )
  unfolding parse_from
  parse_from_lem g val [] sizes = refl
  parse_from_lem g val (help ∷ os) sizes = parse_from_lem g val os sizes
  parse_from_lem g val (smp s ∷ os) sizes =
      parse_from_lem (record g { cpu_nums = atoi s }) val os sizes
  parse_from_lem g val (file s ∷ os) sizes =
      parse_from_lem (record g { filename = some s }) val os sizes
  parse_from_lem g val (other ∷ os) sizes = parse_from_lem g val os sizes
  parse_from_lem g val (mem s ∷ os) sizes =
      let z = sizes.0 in
      let size = u64 (number_from 10 0 z.digits * z.factor) in
      rw (z.spelled, parse_size_decimal z.digits z.letter z.factor [] val z.decimal z.unit_of refl)
        (parse_from_lem (record g { vm_memory_size = size }) (last_of val z.digits) os sizes.1)

  -- A command line whose sizes are decimal numbers with a unit is accepted, and each setting is that
  -- of the last option of its kind, or else one processor, 2 MiB and no file, in whatever order the
  -- options stand. An option for help among them changes nothing of this, though the usage text says
  -- that it exits.
  pub parse_argv_lem :
      (os : List CliOption) (sizes : AreSizes os)
      → parse_argv atoi os
        ≡ ok (
          record {
            cpu_nums = last_count atoi (pos 1) os;
            vm_memory_size = last_size 0x200000 os sizes;
            filename = last_file none os;
          },
          pos 0,
        )
  unfolding parse_argv
  parse_argv_lem os sizes =
      parse_from_lem (record { cpu_nums = pos 1; vm_memory_size = 0x200000; filename = none }) none
        os sizes
