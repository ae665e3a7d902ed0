-- ===== src/Guest/Handlers/Examples.antt =====
-- The handlers that return, and the terminal, on concrete inputs.
use virt_learn_program.Base.{
  inr, ◌==◌, if◌then◌else◌, ◌%◌, test_bit, ◌/◌, zero, some, ◌≡◌, ◌-◌, ◌+◌, ◌++◌, ◌*◌, suc, arith, ℕ,
  List, codes, [], ◌∷◌,
}
use virt_learn_program.Guest.Apic.{dump_apic, show_items}
use virt_learn_program.Guest.Apic.Messages.{Label, content}
use virt_learn_program.Guest.Apic.Switch.{LocalApic}
use virt_learn_program.Guest.Apic.Dump.{dump_apic-rows, texts_of, widths}
use virt_learn_program.Guest.Handlers.{Returned, apic_timer_handler, db_handler}
use virt_learn_program.Guest.Handlers.Returns.{
  IsApart, apic_timer_handler-prints, db_handler-resumes, timer_text,
}
use virt_learn_program.Guest.Memory.{Memory, bytes_at, store}
use virt_learn_program.Guest.Screen.{byte_at}
use virt_learn_program.Guest.Screen.Cells.{put_all}
use virt_learn_program.Guest.Screen.Terminal.{at, typed, run_loop-put_all}
use virt_learn_program.Guest.Screen.Texts.{TextAt}
use virt_learn_program.Vm.Exits.{hlt, run_loop, before}

-- The texts of the timer's handler and of its dump, each in 64 bytes of its own from 0x10000 up.
abbrev entered : List ℕ
entered = codes ">>>>>>> now: enter APIC timer handler"

abbrev left : List ℕ
left = codes "exit the APIC timer handler"

abbrev place : Label → ℕ
place Label.apicid = 0
place Label.apicver = 1
place Label.tpr = 2
place Label.apr = 3
place Label.ppr = 4
place Label.eoi = 5
place Label.rrd = 6
place Label.ldr = 7
place Label.dfr = 8
place Label.svr = 9
place Label.inr = 10
place Label.tmr = 11
place Label.irr = 12
place Label.esr = 13
place Label.icr = 14
place Label.lvt_msg = 15
place Label.lvt_cmci = 16
place Label.lvt_timer = 17
place Label.lvt_thermal = 18
place Label.lvt_perfmon = 19
place Label.lvt_lint0 = 20
place Label.lvt_lint1 = 21
place Label.lvt_error = 22
place Label.init_count = 23
place Label.current_count = 24
place Label.dcr = 25

abbrev labels : List Label
labels =
    Label.apicid ∷ Label.apicver ∷ Label.tpr ∷ Label.apr ∷ Label.ppr ∷ Label.eoi ∷ Label.rrd
    ∷ Label.ldr ∷ Label.dfr ∷ Label.svr ∷ Label.inr ∷ Label.tmr ∷ Label.irr ∷ Label.esr ∷ Label.icr
    ∷ Label.lvt_msg ∷ Label.lvt_cmci ∷ Label.lvt_timer ∷ Label.lvt_thermal ∷ Label.lvt_perfmon
    ∷ Label.lvt_lint0 ∷ Label.lvt_lint1 ∷ Label.lvt_error ∷ Label.init_count ∷ Label.current_count
    ∷ Label.dcr ∷ []

abbrev contents : List Label → List (List ℕ)
contents [] = entered ∷ left ∷ []
contents (l ∷ ls) = content l ∷ contents ls

abbrev row : List (List ℕ) → ℕ → List ℕ
row [] i = []
row (bs ∷ rows) zero = bs
row (bs ∷ rows) (suc i) = row rows i

abbrev memory : Memory
memory b = byte_at (row (contents labels) ((b - 0x10000) / 64)) (b % 64)

abbrev address : Label → ℕ
address l = 0x10000 + 64 * place l

abbrev registers : ℕ → ℕ
registers r = r * 0x10001

there : (l : Label) → TextAt memory 64 (address l) (content l)
there Label.apicid = record { somewhere = omega arith; string = ground arith; enough = omega arith }
there _ = record { somewhere = omega arith; string = ground arith; enough = omega arith }

entered-there : TextAt memory 64 0x10680 entered
entered-there = record { somewhere = omega arith; string = ground arith; enough = omega arith }

left-there : TextAt memory 64 0x106c0 left
left-there = record { somewhere = omega arith; string = ground arith; enough = omega arith }

dump_apic-rows_example :
    (show_items memory 64 address registers dump_apic (at 400)
      ≡ some (put_all (texts_of registers dump_apic) (at 400)))
    × (widths 0 (texts_of registers dump_apic)
        ≡ 47 ∷ 49 ∷ 49 ∷ 32 ∷ 78 ∷ 84 ∷ 78 ∷ 40 ∷ 115 ∷ 57 ∷ 17 ∷ 67 ∷ [])
dump_apic-rows_example = dump_apic-rows memory 64 address registers (at 400) there

-- A text that is broken by a newline and passes the last cell.
run_loop-put_all_example :
    run_loop ((put_all (b'A' ∷ 10 ∷ b'B' ∷ b'C' ∷ []) (at 4008)).exits ++ hlt ∷ [])
    ≡ before (typed 4008 (b'A' ∷ 10 ∷ b'B' ∷ b'C' ∷ [])) (run_loop (hlt ∷ []))
run_loop-put_all_example =
    run_loop-put_all 4008 (b'A' ∷ 10 ∷ b'B' ∷ b'C' ∷ []) (hlt ∷ []) (omega arith) (ground arith)

labels-IsApart : (l : Label) → IsApart 0x8100 (address l) (content l)
labels-IsApart l = inr (omega arith)

apic_timer_handler-prints_example :
    (r : Returned) × (apic_timer_handler 0x8100 memory 64 address registers 0x10680 0x106c0 0x400
        (at 160)
      ≡ some r)
    × (run_loop (r.shown.exits ++ hlt ∷ [])
        ≡ before (typed 160 (timer_text registers entered left)) (run_loop (hlt ∷ [])))
    × (r.memory ≡ store 8 0x8100 r.shown.current memory)
    × (r.apic_writes ≡ (0x8000b0, 0) ∷ [])
apic_timer_handler-prints_example =
    apic_timer_handler-prints memory 64 0x10680 0x106c0 address registers entered left entered-there
      left-there there 0x8100 0x400 160 (hlt ∷ []) (omega arith) (omega arith) labels-IsApart
      (omega arith) (ground arith) (ground arith)

-- Any two texts serve; the flags are at 0x8010, the bit looked at is that of interrupts.
db_handler-resumes_example :
    (r : Returned) × (db_handler 0x8100 memory 64 0x10680 0x106c0 0x8000 0x401 (at 160) ≡ some r)
    × (run_loop (r.shown.exits ++ hlt ∷ [])
        ≡ before (typed 160 (entered ++ left)) (run_loop (hlt ∷ [])))
    × (test_bit 9 (bytes_at r.memory 4 0x8010)
        ≡ (if 9 == 16 then 1 else test_bit 9 (bytes_at memory 4 0x8010)))
    × (r.memory 0x8014 ≡ memory 0x8014)
    × (r.dr7 % 2 ≡ 0)
    × (r.dr7 / 2 ≡ 0x401 / 2)
db_handler-resumes_example =
    db_handler-resumes 0x8100 memory 64 0x10680 0x106c0 0x8000 0x401 160 9 0x8014 entered left
      (hlt ∷ []) entered-there left-there (omega arith) (omega arith) (omega arith) (omega arith)
      (omega arith) (ground arith) (ground arith) (omega arith) (omega arith) (omega arith)

-- A local APIC that is off.
abbrev switched_off : LocalApic
switched_off = record { base_low = 0xfee00100; base_high = 0; registers = registers }
