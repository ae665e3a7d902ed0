-- ===== src/Guest/Apic.antt =====
-- asm/apic64.S: the prints of the local APIC's registers.
pub mod Registers
pub mod Messages
pub mod Dump
pub mod Switch
pub mod Enabled
use virt_learn_program.Base.{ℕ, Option, none, some, List, [], ◌∷◌, ◌++◌}
use virt_learn_program.Guest.Memory.{Memory}
use virt_learn_program.Guest.Screen.{
  Shown, and_then, puts, putc, println, print_dword_value, print_qword_value,
}
use virt_learn_program.Guest.Apic.Registers
use virt_learn_program.Guest.Apic.Registers.{Reg, offset}
use virt_learn_program.Guest.Apic.Messages
use virt_learn_program.Guest.Apic.Messages.{Label}

-- A call of a print: of a text, of a register in eight digits or in sixteen, of an underscore, or
-- of the end of the line.
pub data Item : Type 0 where
  text : Label → Item
  dword qword : Reg → Item
  underscore newline : Item

abbrev pub dump_isr : List Item
dump_isr =
    text Label.inr
    ∷ dword Reg.isr7
    ∷ underscore
    ∷ dword Reg.isr6
    ∷ underscore
    ∷ dword Reg.isr5
    ∷ underscore
    ∷ dword Reg.isr4
    ∷ underscore
    ∷ dword Reg.isr3
    ∷ underscore
    ∷ dword Reg.isr2
    ∷ underscore
    ∷ dword Reg.isr1
    ∷ underscore
    ∷ dword Reg.isr0
    ∷ newline
    ∷ []

abbrev pub dump_irr : List Item
dump_irr =
    text Label.irr
    ∷ dword Reg.irr7
    ∷ underscore
    ∷ dword Reg.irr6
    ∷ underscore
    ∷ dword Reg.irr5
    ∷ underscore
    ∷ dword Reg.irr4
    ∷ underscore
    ∷ dword Reg.irr3
    ∷ underscore
    ∷ dword Reg.irr2
    ∷ underscore
    ∷ dword Reg.irr1
    ∷ underscore
    ∷ dword Reg.irr0
    ∷ newline
    ∷ []

abbrev pub dump_tmr : List Item
dump_tmr =
    text Label.tmr
    ∷ dword Reg.tmr7
    ∷ underscore
    ∷ dword Reg.tmr6
    ∷ underscore
    ∷ dword Reg.tmr5
    ∷ underscore
    ∷ dword Reg.tmr4
    ∷ underscore
    ∷ dword Reg.tmr3
    ∷ underscore
    ∷ dword Reg.tmr2
    ∷ underscore
    ∷ dword Reg.tmr1
    ∷ underscore
    ∷ dword Reg.tmr0
    ∷ newline
    ∷ []

-- Up to the interrupt command register, of which only the high half is left in `rsi`.
abbrev pub dump_head : List Item
dump_head =
    text Label.apicid
    ∷ dword Reg.apic_id
    ∷ text Label.apicver
    ∷ dword Reg.apic_ver
    ∷ newline
    ∷ text Label.tpr
    ∷ dword Reg.tpr
    ∷ text Label.apr
    ∷ dword Reg.apr
    ∷ text Label.ppr
    ∷ dword Reg.ppr
    ∷ newline
    ∷ text Label.eoi
    ∷ dword Reg.eoi
    ∷ text Label.rrd
    ∷ dword Reg.rrd
    ∷ text Label.ldr
    ∷ dword Reg.ldr
    ∷ newline
    ∷ text Label.dfr
    ∷ dword Reg.dfr
    ∷ text Label.svr
    ∷ dword Reg.svr
    ∷ newline
    ∷ []

abbrev pub dump_command : List Item
dump_command = text Label.esr ∷ dword Reg.esr ∷ text Label.icr ∷ qword Reg.icr1 ∷ newline ∷ []

-- The local vector table and the timer.
abbrev pub dump_table : List Item
dump_table =
    text Label.lvt_msg
    ∷ text Label.lvt_cmci
    ∷ dword Reg.lvt_cmci
    ∷ text Label.lvt_timer
    ∷ dword Reg.lvt_timer
    ∷ text Label.lvt_thermal
    ∷ dword Reg.lvt_thermal
    ∷ newline
    ∷ text Label.lvt_perfmon
    ∷ dword Reg.lvt_perfmon
    ∷ text Label.lvt_lint0
    ∷ dword Reg.lvt_lint0
    ∷ text Label.lvt_lint1
    ∷ dword Reg.lvt_lint1
    ∷ newline
    ∷ text Label.lvt_error
    ∷ dword Reg.lvt_error
    ∷ newline
    ∷ text Label.init_count
    ∷ dword Reg.timer_icr
    ∷ text Label.current_count
    ∷ dword Reg.timer_ccr
    ∷ text Label.dcr
    ∷ dword Reg.timer_dcr
    ∷ []

abbrev pub dump_apic : List Item
dump_apic = dump_head ++ (dump_irr ++ (dump_isr ++ (dump_tmr ++ (dump_command ++ dump_table))))

-- The calls, with the addresses of the texts and the values of the registers; `fuel` is for the
-- texts.
module _ (mem : Memory) (fuel : ℕ) (address : Label → ℕ) (regs : ℕ → ℕ) where
  unfoldable pub show_item : Item → ℕ → Option Shown
  show_item (text l) current = puts mem fuel (address l) current
  show_item (dword r) current = some (print_dword_value (regs (offset r)) current)
  show_item (qword r) current = some (print_qword_value (regs (offset r)) current)
  show_item underscore current = some (putc b'_' current)
  show_item newline current = some (println current)

  unfoldable pub show_items : List Item → ℕ → Option Shown
  show_items [] current = some (record { current = current; exits = [] })
  show_items (i ∷ is) current = and_then (show_item i current) (show_items is)
