-- ===== src/Vm/Exits.antt =====
-- vm.c: the loop of `main` over the exits of the virtual processor.
pub mod Status
pub mod Console
use virt_learn_program.Base.{
  ℕ, ◌+◌, ◌-◌, ◌*◌, ◌%◌, Bool, true, false, ◌&&◌, leb, ◌==◌, if◌then◌else◌, Option, none, some,
  List, [], ◌∷◌, ◌++◌,
}

-- What KVM_RUN comes back with: `exit_reason` and the part of `struct kvm_run` that goes with it.
-- The fields of a port access are direction, size, port, count and first byte; those of a memory
-- access are the address and the first byte.
pub data Exit : Type 0 where
  io : Bool → ℕ → ℕ → ℕ → ℕ → Exit
  mmio : ℕ → ℕ → Exit
  shutdown unknown system_event fail_entry internal_error hlt other run_failed : Exit

-- What the monitor does that can be seen: a character of the guest's, a report of its own, or a
-- signal on the interrupt's event file.
pub data Emit : Type 0 where
  char : ℕ → Emit
  report : Emit
  signal : Emit

-- How one exit is handled: the loop goes on, or the process ends with a status.
pub record Handled : Type 0 where
  pub emits : List Emit
  pub status : Option ℕ

abbrev pub text_base : ℕ
text_base = 0xb8000

abbrev pub text_last : ℕ
text_last = 0xba000

abbrev pub doorbell : ℕ
doorbell = 0x8000000

-- A newline stands before the first cell of a row of 80 cells.
abbrev pub text_cell : ℕ → ℕ → List Emit
text_cell addr byte =
    if (addr - text_base) % (2 * 80) == 0 then char b'\n' ∷ char byte ∷ [] else char byte ∷ []

-- The body of the loop. `exit(-1)` ends with 255, and `err(1, …)` and `errx(1, …)` with 1.
unfoldable pub handle : Exit → Handled
handle (io out size port count byte) =
    if out && size == 1 && port == 0x3f8 && count == 1
    then record { emits = char byte ∷ []; status = none }
    else record { emits = report ∷ []; status = some 1 }
handle (mmio addr byte) =
    if leb text_base addr && leb addr text_last
    then record { emits = text_cell addr byte; status = none }
    else if addr == doorbell
    then record { emits = report ∷ signal ∷ []; status = none }
    else record { emits = report ∷ []; status = some 255 }
handle shutdown = record { emits = []; status = none }
handle unknown = record { emits = report ∷ []; status = none }
handle system_event = record { emits = []; status = none }
handle fail_entry = record { emits = report ∷ []; status = some 1 }
handle internal_error = record { emits = report ∷ []; status = some 1 }
handle hlt = record { emits = report ∷ []; status = some 0 }
handle other = record { emits = report ∷ []; status = some 1 }
handle run_failed = record { emits = report ∷ []; status = some 1 }

-- What a loop leaves: all that it emitted, and its status, or none while it still runs when the
-- exits given are used up.
pub record Trace : Type 0 where
  pub emitted : List Emit
  pub ended : Option ℕ

abbrev pub before : List Emit → Trace → Trace
before es t = record t { emitted = es ++ t.emitted }

unfoldable pub run_loop : List Exit → Trace
run_loop [] = record { emitted = []; ended = none }
run_loop (e ∷ es) =
    let h = handle e in
    let rest = before h.emits (run_loop es) in
    elim h.status [ none ↦ rest | some n ↦ record { emitted = h.emits; ended = some n } ]
