-- ===== src/Vm/Exits/Status.antt =====
-- How the monitor ends.
use mathlib.Core.Path.{subst}
use virt_learn_program.Base.{
  ℕ, ◌≡◌, ◌↔◌, ◌⊎◌, ◌≤◌, ◌&&◌, ◌==◌, leb, ℕ_discrete, Bool, Bool-cases, true, inl, inr, refl, arith,
  ap, none, some, List, [], ◌∷◌, ◌++◌,
}
use virt_learn_program.Vm.Exits.{
  Exit, io, mmio, shutdown, unknown, system_event, fail_entry, internal_error, hlt, other,
  run_failed, handle, run_loop, before,
}

-- What the monitor serves: one byte written to the port of the first serial line, and a write to
-- the text screen or to the doorbell.
abbrev pub IsConsole : Bool → ℕ → ℕ → ℕ → Type 0
IsConsole out size port count = (out ≡ true) × (size ≡ 1) × (port ≡ 1016) × (count ≡ 1)

abbrev pub IsServed : ℕ → Type 0
IsServed addr = ((753664 ≤ addr) × (addr ≤ 761856)) ⊎ (addr ≡ 134217728)

-- The exits that the loop goes on after.
pub data GoesOn : Exit → Type 0 where
  console :
      (out : Bool) (size port count byte : ℕ)
      → IsConsole out size port count
      → GoesOn (io out size port count byte)
  served : (addr byte : ℕ) → IsServed addr → GoesOn (mmio addr byte)
  shut_down : GoesOn shutdown
  not_known : GoesOn unknown
  event : GoesOn system_event

-- The exits that end it, each with the status of the process: a halt ends it well.
pub data EndsWith : Exit → ℕ → Type 0 where
  halted : EndsWith hlt 0
  other_port :
      (out : Bool) (size port count byte : ℕ)
      → ¬ IsConsole out size port count
      → EndsWith (io out size port count byte) 1
  outside : (addr byte : ℕ) → ¬ IsServed addr → EndsWith (mmio addr byte) 255
  bad_entry : EndsWith fail_entry 1
  internal : EndsWith internal_error 1
  not_handled : EndsWith other 1
  no_run : EndsWith run_failed 1

abbrev pub AllGoOn : List Exit → Type 0
AllGoOn [] = Unit
AllGoOn (e ∷ es) = GoesOn e × AllGoOn es

-- The exits up to the first that the loop does not go on after.
pub record Stops (n : ℕ) (es : List Exit) : Type 0 where
  pub handled : List Exit
  pub last : Exit
  pub unseen : List Exit
  pub split : es ≡ handled ++ last ∷ unseen
  pub go_on : AllGoOn handled
  pub stop : EndsWith last n

GoesOn-status : (e : Exit) → GoesOn e → (handle e).status ≡ none
unfolding handle
GoesOn-status e (console out size port count byte h) = ground (arith, h)
GoesOn-status e (served addr byte h) = ground (arith, h)
GoesOn-status e shut_down = refl
GoesOn-status e not_known = refl
GoesOn-status e event = refl

EndsWith-status : (e : Exit) (n : ℕ) → EndsWith e n → (handle e).status ≡ some n
unfolding handle
EndsWith-status e n halted = refl
EndsWith-status e n (other_port out size port count byte h) = ground (arith, h)
EndsWith-status e n (outside addr byte h) = ground (arith, h)
EndsWith-status e n bad_entry = refl
EndsWith-status e n internal = refl
EndsWith-status e n not_handled = refl
EndsWith-status e n no_run = refl

-- Every exit is of one of the two kinds.
exit_cases : (e : Exit) → GoesOn e ⊎ ((n : ℕ) × EndsWith e n)
exit_cases (io out size port count byte) =
    elim (Bool-cases (out && size == 1 && port == 1016 && count == 1)) [
      | inl yes_all ↦ inl (console out size port count byte (ground (arith, yes_all)))
      | inr not_all ↦ inr (1, other_port out size port count byte (λ h. ground (arith, not_all, h)))
    ]
exit_cases (mmio addr byte) = elim (Bool-cases (leb 753664 addr && leb addr 761856)) [
  | inl text ↦ inl (served addr byte (inl (ground (arith, text))))
  | inr outside_text ↦ elim (ℕ_discrete addr 134217728) [
    | yes bell ↦ inl (served addr byte (inr bell))
    | no other_place ↦
        inr (255, outside addr byte (λ h. ground (arith, outside_text, other_place, h)))
  ]
]
exit_cases shutdown = inl shut_down
exit_cases unknown = inl not_known
exit_cases system_event = inl event
exit_cases fail_entry = inr (1, bad_entry)
exit_cases internal_error = inr (1, internal)
exit_cases hlt = inr (0, halted)
exit_cases other = inr (1, not_handled)
exit_cases run_failed = inr (1, no_run)

run_loop-stop :
    (e : Exit) (es : List Exit) {n : ℕ}
    → (handle e).status ≡ some n
    → (run_loop (e ∷ es)).ended ≡ some n
unfolding run_loop
run_loop-stop e es h = ground arith

run_loop-go_on :
    (e : Exit) (es : List Exit)
    → (handle e).status ≡ none
    → run_loop (e ∷ es) ≡ before (handle e).emits (run_loop es)
unfolding run_loop
run_loop-go_on e es h = ground arith

Stops-ended :
    (n : ℕ) (hs : List Exit) (e : Exit) (es : List Exit)
    → AllGoOn hs
    → EndsWith e n
    → (run_loop (hs ++ e ∷ es)).ended ≡ some n
Stops-ended n [] e es go_on stop = run_loop-stop e es (EndsWith-status e n stop)
Stops-ended n (h ∷ hs) e es go_on stop =
    rw (run_loop-go_on h (hs ++ e ∷ es) (GoesOn-status h go_on.0))
      (Stops-ended n hs e es go_on.1 stop)

ended-Stops : (n : ℕ) (es : List Exit) → (run_loop es).ended ≡ some n → Stops n es
ended-Stops n [] h = absurd (unfold run_loop in (cc))
ended-Stops n (e ∷ es) h = elim (exit_cases e) [
  | inl later ↦
      let rest = ended-Stops n es (rw (run_loop-go_on e es (GoesOn-status e later)) at h) in
      record {
        handled = e ∷ rest.handled;
        last = rest.last;
        unseen = rest.unseen;
        split = ap (◌∷◌ e) rest.split;
        go_on = (later, rest.go_on);
        stop = rest.stop;
      }
  | inr (m, ends) ↦
      let same : m ≡ n = ground (arith, run_loop-stop e es (EndsWith-status e m ends)) in
      record {
        handled = [];
        last = e;
        unseen = es;
        split = refl;
        go_on = tt;
        stop = subst (EndsWith e) same ends;
      }
]

-- The monitor ends with status `n` exactly when the exits are some that the loop goes on after (a
-- byte for the console, a write to the text screen or the doorbell, and the exits of three other
-- kinds), then one that ends it with `n` (0 for a halt, 255 for a write elsewhere, 1 for a port
-- access of another form and for the failures), and then any others, which it never sees.
pub run_loop_ended_iff : (n : ℕ) (es : List Exit) → ((run_loop es).ended ≡ some n) ↔ Stops n es
run_loop_ended_iff n es =
    (ended-Stops n es, λ s. rw s.split (Stops-ended n s.handled s.last s.unseen s.go_on s.stop))

-- Status 0 means that the guest halted, and nothing else does.
pub handle_zero_iff : (e : Exit) → ((handle e).status ≡ some 0) ↔ (e ≡ hlt)
unfolding handle
handle_zero_iff e = ground arith
