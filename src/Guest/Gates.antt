-- ===== src/Guest/Gates.antt =====
-- asm/libs64.S: the gates of the interrupts and the descriptor of the task's state.
pub mod Decode
pub mod Install
pub mod Task
pub mod Vectors
use virt_learn_program.Base.{
  bit_and, bit_or, ◌^◌, ◌==◌, if◌then◌else◌, List, [], ◌∷◌, ℕ, ◌+◌, ◌*◌, ◌%◌, ◌/◌, u64,
}
use virt_learn_program.Guest.Gates.Vectors.{Vector, number}
use virt_learn_program.Guest.Memory.{Memory, store}

-- `set_interrupt_handler`, with the table's address from `sidt`: its stores, in order.
unfoldable pub set_interrupt_handler : ℕ → ℕ → ℕ → Memory → Memory
set_interrupt_handler table vector handler mem =
    let gate = table + 16 * vector in
    store 1 (gate + 5) 0x8e (
      store 2 (gate + 4) 0
        (store 2 (gate + 2) 0x28 (store 8 (gate + 4) handler (store 8 gate handler mem))))

-- The labels of the handlers that the program installs.
pub data Handler : Type 0 where
  de nmi of ud nm df ts np gp mc pf db timer : Handler

-- The vectors that the program sets a handler for, each with the handler, in its order.
abbrev pub handlers : List (ℕ × Handler)
handlers =
    (number Vector.de_handler, de)
    ∷ (number Vector.nmi_handler, nmi)
    ∷ (number Vector.of_handler, of)
    ∷ (number Vector.ud_handler, ud)
    ∷ (number Vector.nm_handler, nm)
    ∷ (number Vector.df_handler, df)
    ∷ (number Vector.ts_handler, ts)
    ∷ (number Vector.np_handler, np)
    ∷ (number Vector.gp_handler, gp)
    ∷ (number Vector.mc_handler, mc)
    ∷ (number Vector.pf_handler, pf)
    ∷ (number Vector.db_handler, db)
    ∷ (number Vector.apic_timer, timer)
    ∷ []

-- A call for each of them; the addresses of the labels are an argument.
abbrev pub install : ℕ → (Handler → ℕ) → List (ℕ × Handler) → Memory → Memory
install table address [] mem = mem
install table address ((v, h) ∷ hs) mem =
    install table address hs (set_interrupt_handler table v (address h) mem)

unfoldable pub set_handlers : ℕ → (Handler → ℕ) → Memory → Memory
set_handlers table address mem = install table address handlers mem

-- `set_system_descriptor`, with the table's address from `sgdt`. Its `shrd` shifts 16 bits by 17,
-- of which the processor leaves the result undefined: that byte is an argument.
unfoldable pub set_system_descriptor : ℕ → ℕ → ℕ → ℕ → ℕ → ℕ → Memory → Memory
set_system_descriptor table selector limit base kind undefined mem =
    let d = table + bit_and selector 0xfff8 in
    let pages = limit / 2 ^ 12 in
    let low = if pages == 0 then limit else pages in
    store 1 (d + 6) undefined (
      store 2 d low
        (store 1 (d + 5) (bit_or kind 0x80) (store 4 (d + 2) base (store 8 (d + 4) base mem))))
