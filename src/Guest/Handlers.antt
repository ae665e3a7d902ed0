-- ===== src/Guest/Handlers.antt =====
-- asm/handler64.S: the handlers of the processor's exceptions.
pub mod Report
pub mod Faults
pub mod Returns
mod Examples
use virt_learn_program.Base.{
  ◌%◌, ◌-◌, ◌^◌, bit_or, [], ◌∷◌, List, zero, ◌*◌, some, ◌+◌, suc, ℕ, Option,
}
use virt_learn_program.Base.{none, some, Option, ℕ}
use virt_learn_program.Guest.Apic.{show_items, dump_apic}
use virt_learn_program.Guest.Apic.Registers
use virt_learn_program.Guest.Apic.Registers.{Reg, offset}
use virt_learn_program.Guest.Apic.Messages.{Label}
use virt_learn_program.Guest.Memory.{Memory, qword_at, bytes_at, store}
use virt_learn_program.Guest.Screen.{
  and_then, Shown, after, after_some, puts, println, print_qword_value,
}

-- A message, a number after it and the end of the line, as each handler has them; `fuel` is for the
-- message.
unfoldable pub show_line : Memory → ℕ → ℕ → ℕ → ℕ → Option Shown
show_line mem fuel message value current =
    and_then (puts mem fuel message current)
      λ c1. and_then (some (print_qword_value value c1)) λ c2. some (println c2)

-- The handlers of #DE, NMI, #OF, #UD, #NM, #TS, #NP, #GP and #MC, up to the `jmp .` that stops
-- them. The arguments after the rounds are the addresses of the three messages and `rsp`. What the
-- calls push below `rsp` is left out.
unfoldable pub handler : Memory → ℕ → ℕ → ℕ → ℕ → ℕ → ℕ → Option Shown
handler mem fuel msg1 msg2 msg3 rsp current =
    and_then (show_line mem fuel msg1 (qword_at mem (rsp + 8)) current) λ c1.
      and_then (show_line mem fuel msg2 (qword_at mem rsp) c1)
        λ c2. show_line mem fuel msg3 (qword_at mem (rsp + 32)) c2

-- The handler of #DF.
unfoldable pub df_handler : Memory → ℕ → ℕ → ℕ → ℕ → Option Shown
df_handler mem fuel dfmsg1 rsp current = show_line mem fuel dfmsg1 (qword_at mem (rsp + 4)) current

-- The handler of #PF, which drops the error code first; the last argument but one is `cr2`.
unfoldable pub pf_handler : Memory → ℕ → ℕ → ℕ → ℕ → ℕ → ℕ → ℕ → Option Shown
pf_handler mem fuel pf_msg1 pf_msg2 pf_msg3 rsp cr2 current =
    let rsp' = rsp + 8 in
    and_then (puts mem fuel pf_msg1 current) λ c1. and_then (some (println c1)) λ c2.
      and_then (show_line mem fuel pf_msg2 (qword_at mem rsp') c2)
        λ c3. show_line mem fuel pf_msg3 cr2 c3

-- What a handler that returns leaves: its stores to the screen, the memory, and the stores to the
-- local APIC or the debug register, each with where it goes. The memory has the cursor in the eight
-- bytes of `video_current`, the first argument of a handler; its texts and the flags on the stack
-- are apart from these.
pub record Returned : Type 0 where
  pub shown : Shown
  pub memory : Memory
  pub dr7 : ℕ
  pub apic_writes : List (ℕ × ℕ)

abbrev pub returned : ℕ → Memory → ℕ → List (ℕ × ℕ) → Option Shown → Option Returned
returned video_current mem dr7 writes none = none
returned video_current mem dr7 writes (some s) = some (record {
  shown = s;
  memory = store 8 video_current s.current mem;
  dr7 = dr7;
  apic_writes = writes;
})

-- The handler of #DB, with the addresses of its two messages: it clears the first enabling bit of
-- `dr7` and sets the resume flag in the flags that it returns to.
unfoldable pub db_handler : ℕ → Memory → ℕ → ℕ → ℕ → ℕ → ℕ → ℕ → Option Returned
db_handler video_current mem fuel db_msg1 db_msg2 rsp dr7 current =
    let flags = bit_or (bytes_at mem 4 (rsp + 16)) (2 ^ 16) in
    let mem' = store 4 (rsp + 16) flags mem in
    returned video_current mem' (dr7 - dr7 % 2) []
      (and_then (puts mem fuel db_msg1 current) (puts mem' fuel db_msg2))

-- The handler of the timer, with the addresses of its two messages and of the texts of the dump:
-- it acknowledges the interrupt last.
unfoldable pub apic_timer_handler :
    ℕ → Memory → ℕ → (Label → ℕ) → (ℕ → ℕ) → ℕ → ℕ → ℕ → ℕ → Option Returned
apic_timer_handler video_current mem fuel address regs at_msg1 at_msg2 dr7 current =
    returned video_current mem dr7 ((0x800000 + offset Reg.eoi, 0) ∷ []) (
      and_then (puts mem fuel at_msg1 current) λ c1. and_then (some (println c1)) λ c2.
        and_then (show_items mem fuel address regs dump_apic c2) λ c3.
          and_then (some (println c3))
            λ c4. and_then (puts mem fuel at_msg2 c4) λ c5. some (println c5))
