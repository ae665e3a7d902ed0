-- ===== src/Vm/Events/Examples.antt =====
-- The thread on a concrete event file.
use virt_learn_program.Base.{
  ℕ, ◌+◌, ◌==◌, ◌≡◌, ◌≢◌, true, if◌then◌else◌, Option, none, some, pos, neg, List, [], ◌∷◌, refl,
  arith,
}
use virt_learn_program.Vm.Events.{
  EventFile, value_read, read_error, select_error, Step, signals, rounds, wait_eventfd, step,
  wait_round,
}
use virt_learn_program.Vm.Events.Conserved.{reported, wait_eventfd-conserves}

abbrev take_all : ℕ → Option (ℕ × ℕ)
take_all n = if n == 0 then none else some (n, 0)

take_all_lem : (n : ℕ) → n ≢ 0 → (m : ℕ) × (take_all n ≡ some (n, m)) × (m ≡ 0)
take_all_lem n h = (0, ground (arith, h), refl)

take_none : (n : ℕ) → n ≡ 0 → take_all n ≡ none
take_none n e = ground (arith, e)

abbrev file : EventFile
file = record {
  State = ℕ;
  counter = λ n. n;
  signal = λ n m. m + n;
  take = take_all;
  counter-signal = λ n s h. refl;
  take-empty = take_none;
  take-counter = take_all_lem;
}

-- Two signals before a round, an error of `select`, and a round too many.
abbrev steps : List Step
steps = signals 1 ∷ signals 2 ∷ rounds (pos 1) true ∷ rounds (neg 1) true ∷ rounds (pos 1) true ∷ []

steps_run : wait_eventfd file steps 0 ≡ (0, value_read 3 ∷ select_error ∷ read_error ∷ [])
unfolding wait_eventfd step wait_round
steps_run = refl

wait_eventfd-conserves_example :
    reported (wait_eventfd file steps 0).1 + (wait_eventfd file steps 0).0 ≡ 3
wait_eventfd-conserves_example = wait_eventfd-conserves file steps 0 (omega arith)
