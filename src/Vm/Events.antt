-- ===== src/Vm/Events.antt =====
-- vm.c: `wait_eventfd`, the loop of a thread that prints what it reads from the doorbell's event file.
-- The event file is an interface, and a run is any interleaving of the thread's rounds with signals.
pub mod Conserved
mod Examples
use virt_learn_program.Base.{
  ℕ, zero, suc, ◌+◌, ◌-◌, ◌^◌, ◌≤◌, ◌==◌, Bool, true, false, if◌then◌else◌, Option, none, some, ℤ,
  pos, negsuc, List, [], ◌∷◌, ◌++◌, ◌≡◌, ◌≢◌,
}

-- The most that the counter of an event file holds.
abbrev pub counter_max : ℕ
counter_max = 2 ^ 64 - 2

-- An event file: a signal adds to its counter where the sum fits, and a read takes the counter, or
-- fails on 0. Of a signal that does not fit, which waits or fails, nothing is taken for granted.
pub record EventFile : Type 1 where
  pub State : Type 0
  pub counter : State → ℕ
  pub signal : ℕ → State → State
  pub take : State → Option (ℕ × State)
  pub counter-signal :
      (n : ℕ) (s : State) → counter s + n ≤ counter_max → counter (signal n s) ≡ counter s + n
  pub take-empty : (s : State) → counter s ≡ 0 → take s ≡ none
  pub take-counter :
      (s : State)
      → counter s ≢ 0
      → (s' : State) × (take s ≡ some (counter s, s')) × (counter s' ≡ 0)

pub data Message : Type 0 where
  select_error read_error no_data : Message
  value_read : ℕ → Message

-- A signal, or a round of the thread's loop, with the result of `select` and whether the file is in
-- the set that `select` leaves.
pub data Step : Type 0 where
  signals : ℕ → Step
  rounds : ℤ → Bool → Step

module _ (file : EventFile) where
  open file use {State, counter, signal, take}

  abbrev pub read_event : State → State × List Message
  read_event s = elim (take s) [
    | none ↦ (s, read_error ∷ [])
    | some (v, s') ↦ (s', value_read v ∷ [])
  ]

  -- A round of the loop of `wait_eventfd`.
  unfoldable pub wait_round : ℤ → Bool → State → State × List Message
  wait_round (negsuc zero) ready s = (s, select_error ∷ [])
  wait_round (negsuc (suc n)) ready s = (s, [])
  wait_round (pos zero) ready s = (s, no_data ∷ [])
  wait_round (pos (suc n)) ready s = if ready then read_event s else (s, [])

  unfoldable pub step : Step → State → State × List Message
  unfolding wait_round
  step (signals n) s = (signal n s, [])
  step (rounds r ready) s = wait_round r ready s

  -- The thread's loop, which has no end of its own, over the steps of a run.
  unfoldable pub wait_eventfd : List Step → State → State × List Message
  unfolding step
  wait_eventfd [] s = (s, [])
  wait_eventfd (a ∷ rest) s =
      let (s', printed) = step a s in
      let (s'', later) = wait_eventfd rest s' in (s'', printed ++ later)
