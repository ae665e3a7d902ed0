-- ===== src/Guest/Examples.antt =====
-- The guest program on concrete inputs.
use virt_learn_program.Base.{
  codes, ◌<◌, ◌^◌, ◌/◌, ◌∷◌, ◌-◌, true, ◌++◌, ◌*◌, ◌%◌, some, length, leb, [], ◌≡◌, ◌+◌, ℕ,
  if◌then◌else◌, arith, List, refl,
}
use virt_learn_program.Guest.Memory.{Memory, qword_at}
use virt_learn_program.Guest.Screen.{Shown, byte_at, print_hex_by_byte}
use virt_learn_program.Guest.Screen.Cells.{put_all, cell_at, AreShown}
use virt_learn_program.Guest.Screen.Hex.{hex, number_of, print_hex_by_byte-number}
use virt_learn_program.Guest.Handlers.{handler}
use virt_learn_program.Guest.Handlers.Report.{Message, Frame, handler-reports, handler-misreports}
use virt_learn_program.Guest.Paging.{init_paging}
use virt_learn_program.Guest.Paging.Walk.{Translation, walk}
use virt_learn_program.Guest.Paging.Pages.{init_paging-maps}
use virt_learn_program.Guest.Paging.Rights.{IsUsers}
use virt_learn_program.Guest.Paging.Isolation.{init_paging-isolates}
use virt_learn_program.Guest.Paging.Screen.{AreInPlace, put_all-AreInPlace}
use virt_learn_program.Guest.Entry.{user_entry, user_entry-rings}
use virt_learn_program.Guest.Gates.{Handler, pf, set_handlers}
use virt_learn_program.Guest.Gates.Decode.{gate_at, IsGate}
use virt_learn_program.Guest.Gates.Install.{set_handlers-gates}
use virt_learn_program.Vm.Exits.{Exit, hlt, report, signal, run_loop, before}
use virt_learn_program.Vm.Exits.Console.{lines}
use virt_learn_program.Vm.Setup.Memory.{region1, region2, IsBacked}

abbrev occurred : List ℕ
occurred = codes "---> Now, enter #GP handler, occur at: 0x"

abbrev error_code : List ℕ
error_code = codes "error code = 0x"

abbrev stack_pointer : List ℕ
stack_pointer = codes "rsp = 0x"

abbrev small_word : ℕ → List ℕ
small_word w = w % 256 ∷ w / 256 ∷ 0 ∷ 0 ∷ 0 ∷ 0 ∷ 0 ∷ 0 ∷ []

-- An error code at 0x20000, and what is pushed before it from 0x20008 up.
abbrev stack : List ℕ
stack =
    small_word 0x18
    ++ small_word 0x9123
    ++ small_word 0x28
    ++ small_word 0x202
    ++ small_word 0x7f0
    ++ small_word 0x30

abbrev memory : Memory
memory b =
    if leb 0x20000 b
    then byte_at stack (b - 0x20000)
    else byte_at (occurred ++ 0 ∷ error_code ++ 0 ∷ stack_pointer) (b - 0x10000)

abbrev frame : Frame
frame = record { rip = 0x9123; cs = 0x28; rflags = 0x202; rsp = 0x7f0; ss = 0x30 }

occurred-Message : Message memory 64 0x10000 occurred
occurred-Message = record {
  somewhere = omega arith;
  string = ground arith;
  shown = ground arith;
  short = omega arith;
  enough = omega arith;
}

error_code-Message : Message memory 64 0x1002a error_code
error_code-Message = record {
  somewhere = omega arith;
  string = ground arith;
  shown = ground arith;
  short = omega arith;
  enough = omega arith;
}

stack_pointer-Message : Message memory 64 0x1003a stack_pointer
stack_pointer-Message = record {
  somewhere = omega arith;
  string = ground arith;
  shown = ground arith;
  short = omega arith;
  enough = omega arith;
}

handler-reports_example :
    (s : Shown) × (handler memory 64 0x10000 0x1002a 0x1003a 0x20000 (cell_at 5 0) ≡ some s)
    × (s.current ≡ cell_at 8 0)
    × (run_loop (s.exits ++ hlt ∷ [])
        ≡ before
            (lines (
              (occurred ++ hex 16 0x9123)
              ∷ (error_code ++ hex 16 0x18)
              ∷ (stack_pointer ++ hex 16 0x7f0)
              ∷ []))
            (run_loop (hlt ∷ [])))
unfolding qword_at
handler-reports_example =
    handler-reports memory 64 0x10000 0x1002a 0x1003a 0x20000 5 occurred error_code stack_pointer
      occurred-Message error_code-Message stack_pointer-Message (omega arith) frame 0x18 (hlt ∷ [])
      (ground arith)

-- The same stack without the error code.
handler-misreports_example :
    (s : Shown) × (handler memory 64 0x10000 0x1002a 0x1003a 0x20008 (cell_at 5 0) ≡ some s)
    × (s.current ≡ cell_at 8 0)
    × (run_loop (s.exits ++ hlt ∷ [])
        ≡ before
            (lines (
              (occurred ++ hex 16 0x28)
              ∷ (error_code ++ hex 16 0x9123)
              ∷ (stack_pointer ++ hex 16 0x30)
              ∷ []))
            (run_loop (hlt ∷ [])))
unfolding qword_at
handler-misreports_example =
    handler-misreports memory 64 0x10000 0x1002a 0x1003a 0x20008 5 occurred error_code stack_pointer
      occurred-Message error_code-Message stack_pointer-Message (omega arith) frame (hlt ∷ [])
      (ground arith)

print_hex_by_byte-number_example :
    (print_hex_by_byte 4 0x12ab9 0xb8000 ≡ put_all (hex 4 0x12ab9) 0xb8000)
    × (length (hex 4 0x12ab9) ≡ 4)
    × AreShown (hex 4 0x12ab9)
    × (number_of 0 (hex 4 0x12ab9) ≡ 0x2ab9)
print_hex_by_byte-number_example =
    print_hex_by_byte-number 4 0x12ab9 0xb8000 (omega arith) (omega arith)

-- The last byte of the text screen.
init_paging-maps_example :
    (mem' : Memory) × (init_paging 0xfee00900 memory ≡ some mem')
    × (walk (qword_at mem') 0x200000 0xb9fff
        ≡ some (record { page_size = 0x1000; physical = 0xb9fff; user = true; writable = true }))
init_paging-maps_example =
    init_paging-maps 0xfee00900 memory 19
      (record { virtual = 0xb9000; page_size = 0x1000; physical = 0xb9000; user = true }) 0xfff refl
      refl (omega arith)

doorbell_run :
    (mem' : Memory) × (init_paging 0xfee00900 memory ≡ some mem')
    × (e : Exit) × (user_entry mem' ≡ some e)
    × (run_loop (e ∷ hlt ∷ []) ≡ before (report ∷ signal ∷ []) (run_loop (hlt ∷ [])))
    × (¬ IsBacked (region1 0x1000) 0x8000000)
    × (¬ IsBacked (region2 0x200000) 0x8000000)
doorbell_run = user_entry-rings 0xfee00900 0x1000 0x200000 memory (hlt ∷ []) refl

-- The gate of page faults.
abbrev label_address : Handler → ℕ
label_address pf = 0x10380
label_address _ = 0x10000

label_address-small : (h : Handler) → label_address h < 2 ^ 64
label_address-small pf = omega arith
label_address-small _ = omega arith

set_handlers-gates_example :
    IsGate 0x10380 (gate_at (set_handlers 0x500 label_address memory) (0x500 + 16 * 14))
set_handlers-gates_example = set_handlers-gates 0x500 label_address 14 label_address-small memory

-- The last byte of the text screen, and where it is.
abbrev last_byte : Translation
last_byte = record { page_size = 0x1000; physical = 0xb9fff; user = true; writable = true }

last_byte-leads :
    (mem' : Memory) × (init_paging 0xfee00900 memory ≡ some mem')
    × (walk (qword_at mem') 0x200000 0xb9fff ≡ some last_byte)
last_byte-leads =
    init_paging-maps 0xfee00900 memory 19
      (record { virtual = 0xb9000; page_size = 0x1000; physical = 0xb9000; user = true }) 0xfff refl
      refl (omega arith)

init_paging-isolates_example : IsUsers 0xb9fff
init_paging-isolates_example =
    init_paging-isolates 0xfee00900 memory last_byte-leads.0 0xb9fff last_byte refl
      last_byte-leads.1 last_byte-leads.2 refl

-- Two characters at the end of the last row that is whole.
put_all-AreInPlace_example :
    AreInPlace last_byte-leads.0 (put_all (b'O' ∷ b'K' ∷ []) (cell_at 50 78)).exits
put_all-AreInPlace_example =
    put_all-AreInPlace 0xfee00900 50 78 (b'O' ∷ b'K' ∷ []) memory last_byte-leads.0 refl
      last_byte-leads.1 (omega arith) (omega arith) (ground arith)
