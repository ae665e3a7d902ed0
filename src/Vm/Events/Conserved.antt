-- ===== src/Vm/Events/Conserved.antt =====
-- No signal is lost, and none is reported twice.
use virt_learn_program.Base.{
  ℕ, zero, suc, ◌+◌, ◌==◌, Bool, true, false, ℤ, pos, negsuc, List, [], ◌∷◌, ◌++◌, ◌≡◌, ◌≤◌, arith,
  inl, inr, Bool-cases,
}
use virt_learn_program.Vm.Events.{
  EventFile, counter_max, Message, select_error, read_error, no_data, value_read, read_event, Step,
  signals, rounds, wait_round, step, wait_eventfd,
}

-- What was signalled, and what was printed as read.
abbrev pub signalled : List Step → ℕ
signalled [] = 0
signalled (signals n ∷ rest) = n + signalled rest
signalled (rounds r ready ∷ rest) = signalled rest

abbrev pub reported : List Message → ℕ
reported [] = 0
reported (value_read v ∷ rest) = v + reported rest
reported (select_error ∷ rest) = reported rest
reported (read_error ∷ rest) = reported rest
reported (no_data ∷ rest) = reported rest

reported-++ : (xs ys : List Message) → reported (xs ++ ys) ≡ reported xs + reported ys
reported-++ [] ys = omega arith
reported-++ (value_read v ∷ xs) ys = omega (arith, reported-++ xs ys)
reported-++ (select_error ∷ xs) ys = reported-++ xs ys
reported-++ (read_error ∷ xs) ys = reported-++ xs ys
reported-++ (no_data ∷ xs) ys = reported-++ xs ys

module _ (file : EventFile) where
  open file use {State, counter, signal, take, counter-signal, take-empty, take-counter}

  read_event-conserves :
      (s : State)
      → let (s', printed) = read_event file s in reported printed + counter s' ≡ counter s
  read_event-conserves s = elim (Bool-cases (counter s == 0)) [
    | inl empty ↦ let e = take-empty s (ground (arith, empty)) in rw (read_event, e) (omega arith)
    | inr some_left ↦
        let (s', took, none_left) = take-counter s (λ e. ground (arith, some_left, e)) in
        rw (read_event, took) (omega (arith, none_left))
  ]

  round-conserves :
      (r : ℤ) (ready : Bool) (s : State)
      → let (s', printed) = wait_round file r ready s in reported printed + counter s' ≡ counter s
  unfolding wait_round
  round-conserves (negsuc zero) ready s = omega arith
  round-conserves (negsuc (suc n)) ready s = omega arith
  round-conserves (pos zero) ready s = omega arith
  round-conserves (pos (suc n)) true s = read_event-conserves s
  round-conserves (pos (suc n)) false s = omega arith

  -- In every interleaving of signals with rounds of the thread, whatever `select` answers, if the
  -- first counter and all that is signalled fit the counter, the values printed and what is left in
  -- the counter add up to them.
  pub wait_eventfd-conserves :
      (run : List Step) (s : State)
      → counter s + signalled run ≤ counter_max
      → let (s', printed) = wait_eventfd file run s in
        reported printed + counter s' ≡ counter s + signalled run
  unfolding wait_eventfd step
  wait_eventfd-conserves [] s fits = omega arith
  wait_eventfd-conserves (signals n ∷ rest) s fits =
      let added = counter-signal n s (omega arith) in
      omega (arith, wait_eventfd-conserves rest (signal n s) (omega arith), added)
  wait_eventfd-conserves (rounds r ready ∷ rest) s fits =
      let (s', printed) = wait_round file r ready s in
      let (s'', later) = wait_eventfd file rest s' in
      let kept = round-conserves r ready s in
      omega (
        arith,
        reported-++ printed later,
        wait_eventfd-conserves rest s' (omega (arith, kept)),
        kept,
      )
