-- ===== src/Guest/Gates/Install.antt =====
-- The interrupt table after all handlers are set.
use mathlib.Core.Path.{subst}
use virt_learn_program.Base.{
  ◌∙◌, arith, ◌≢◌, [], ◌*◌, ◌==◌, ◌+◌, Bool, true, false, ◌≡◌, ◌∷◌, ◌^◌, ◌<◌, List, ℕ, suc, refl,
  sym, Option, none, some, if◌then◌else◌,
}
use virt_learn_program.Guest.Memory.{Memory}
use virt_learn_program.Guest.Gates.{
  set_interrupt_handler, Handler, de, nmi, of, ud, nm, df, ts, np, gp, mc, pf, db, timer, handlers,
  install, set_handlers,
}
use virt_learn_program.Guest.Gates.Decode.{Gate, gate_at, IsGate, set_interrupt_handler-IsGate}

-- The handler that is meant for a vector, by the processor's numbers of its exceptions and the
-- number given to the timer.
abbrev pub meant : ℕ → Option Handler
meant v =
    if v == 0
    then some de
    else if v == 1
    then some db
    else if v == 2
    then some nmi
    else if v == 4
    then some of
    else if v == 6
    then some ud
    else if v == 7
    then some nm
    else if v == 8
    then some df
    else if v == 10
    then some ts
    else if v == 11
    then some np
    else if v == 13
    then some gp
    else if v == 14
    then some pf
    else if v == 18
    then some mc
    else if v == 48
    then some timer
    else none

abbrev later_or : Option Handler → Option Handler → Option Handler
later_or (some h) first = some h
later_or none first = first

-- The last handler set for a vector.
found : ℕ → List (ℕ × Handler) → Option Handler
found v [] = none
found v ((u, h) ∷ hs) = later_or (found v hs) (if v == u then some h else none)

found-meant : (v : ℕ) → found v handlers ≡ meant v
unfolding found
found-meant v = ground arith

-- A gate to the handler, or the gate that was there.
abbrev pub Lands : (Handler → ℕ) → Option Handler → Gate → Gate → Type 0
Lands address (some h) gate old = IsGate (address h) gate
Lands address none gate old = gate ≡ old

Lands-later :
    (address : Handler → ℕ) (o : Option Handler) (b : Bool) (h : Handler) (gate between old : Gate)
    → Lands address o gate between
    → (b ≡ true → IsGate (address h) between)
    → (b ≡ false → between ≡ old)
    → Lands address (later_or o (if b then some h else none)) gate old
Lands-later address (some h') b h gate between old later own kept = later
Lands-later address none true h gate between old later own kept =
    subst (IsGate (address h)) (sym later) (own refl)
Lands-later address none false h gate between old later own kept = later ∙ kept refl

module _ (table : ℕ) (address : Handler → ℕ) (v : ℕ)
    (small : (h : Handler) → address h < 2 ^ 64) where
  install-Lands :
      (hs : List (ℕ × Handler)) (mem : Memory)
      → Lands address
          (found v hs)
          (gate_at (install table address hs mem) (table + 16 * v))
          (gate_at mem (table + 16 * v))
  unfolding found
  install-Lands [] mem = refl
  install-Lands ((u, h) ∷ hs) mem =
      let mem' = set_interrupt_handler table u (address h) mem in
      Lands-later address (found v hs) (v == u) h
        (gate_at (install table address hs mem') (table + 16 * v)) (gate_at mem' (table + 16 * v))
        (gate_at mem (table + 16 * v)) (install-Lands hs mem')
        (λ same.
          let e : u ≡ v = ground (arith, same) in
          subst (λ (w : ℕ). IsGate (address h) (gate_at mem' (table + 16 * w))) e
            (set_interrupt_handler-IsGate table u (address h) mem (suc u) (small h)
              (omega arith)).0)
        λ other.
          let ne : v ≢ u = ground (arith, other) in
          (set_interrupt_handler-IsGate table u (address h) mem v (small h) ne).1

  -- With every handler's address below 2^64, the program leaves a gate to the handler of each
  -- exception at the number that the processor gives the exception (#DE 0, #DB 1, NMI 2, #OF 4, #UD 6,
  -- #NM 7, #DF 8, #TS 10, #NP 11, #GP 13, #PF 14, #MC 18), a gate to the timer's handler at 48, and
  -- the gate of each other vector as it was.
  pub set_handlers-gates :
      (mem : Memory)
      → Lands address
          (meant v)
          (gate_at (set_handlers table address mem) (table + 16 * v))
          (gate_at mem (table + 16 * v))
  unfolding set_handlers
  set_handlers-gates mem =
      subst
        (λ (o : Option Handler).
          Lands address o (gate_at (install table address handlers mem) (table + 16 * v))
            (gate_at mem (table + 16 * v)))
        (found-meant v) (install-Lands handlers mem)
