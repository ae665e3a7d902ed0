-- ===== src/Vm/Examples.antt =====
-- The monitor on concrete inputs.
use virt_learn_program.Base.{
  ◌%◌, ◌^◌, ◌/◌, Option, false, refl, ok, inl, ◌≢◌, ◌↔◌, ◌==◌, ◌<◌, true, none, negsuc, arith, [],
  ◌≤◌, ◌≡◌, ◌∷◌, ◌+◌, some, replicate, pos, length-replicate, if◌then◌else◌, List, ℕ,
}
use virt_learn_program.Vm.Args.{unit, parse_size, CliOption, mem, file, help, parse_argv}
use virt_learn_program.Vm.Args.Size.{
  giga, parse_size_refused, mega, kilo_lower, parse_size_decimal, parse_size_hexadecimal,
  parse_size_fifteen,
}
use virt_learn_program.Vm.Args.Options.{AreSizes, parse_argv_lem}
use virt_learn_program.Vm.Cpuid.{Regs, Cpu, Table, filled, blank, fill_table, leaves, plain}
use virt_learn_program.Vm.Cpuid.Bounds.{IsTable, Ends, fill_table-Ends}
use virt_learn_program.Vm.Cpuid.Plain.{views, nonzero, leaves-views}
use virt_learn_program.Vm.Exits.{Exit, io, mmio, hlt, shutdown, char, handle, run_loop, before}
use virt_learn_program.Vm.Exits.Status.{Stops, run_loop_ended_iff, handle_zero_iff}
use virt_learn_program.Vm.Exits.Console.{run_loop-rows}
use virt_learn_program.Vm.Setup.{set_ioeventfd_mmio, kvm_init, checks, MainCalls, setup, looping}
use virt_learn_program.Vm.Setup.Start.{IsReady, setup_looping_iff}
use virt_learn_program.Vm.Setup.Interrupts.{
  Route, Irqfd, Lookup, route_interrupts, route_interrupts-delivers,
}
use virt_learn_program.Vm.Setup.Memory.{
  region1, region2, start_regs, load_address, regions_apart, starts_at_program,
}

parse_size_decimal_example :
    parse_size (b'1' ∷ b'2' ∷ b'M' ∷ []) none
    ≡ ok (record { accepted = true; size = 12582912; val = some 2 })
parse_size_decimal_example =
    parse_size_decimal (1 ∷ 2 ∷ []) b'M' 0x100000 [] none (omega arith) mega refl

refused_run :
    parse_size (b'7' ∷ b'q' ∷ []) none ≡ ok (record { accepted = false; size = 7; val = some 7 })
unfolding unit
refused_run =
    parse_size_refused (7 ∷ []) (b'q' ∷ []) none (omega arith)
      (record { no_digit = refl; no_prefix = refl }) (inl refl)

parse_size_hexadecimal_run :
    parse_size (b'0' ∷ b'x' ∷ b'1' ∷ b'e' ∷ b'k' ∷ []) none
    ≡ ok (record { accepted = true; size = 30720; val = some 14 })
parse_size_hexadecimal_run =
    parse_size_hexadecimal (1 ∷ 14 ∷ []) b'k' 0x400 none (omega arith) kilo_lower

-- 0x1fk is read as 0x11k.
parse_size_fifteen_run :
    parse_size (b'0' ∷ b'x' ∷ b'1' ∷ b'f' ∷ b'k' ∷ []) none
    ≡ ok (record { accepted = true; size = 17408; val = some 1 })
parse_size_fifteen_run =
    parse_size_fifteen (1 ∷ []) b'f' b'k' 0x400 none (omega arith) (inl refl) kilo_lower

-- `--mem 64M --file x --help --mem 1G`.
abbrev options : List CliOption
options = mem (b'6' ∷ b'4' ∷ b'M' ∷ []) ∷ file (b'x' ∷ []) ∷ help ∷ mem (b'1' ∷ b'G' ∷ []) ∷ []

abbrev options-AreSizes : AreSizes options
options-AreSizes = (
  record {
    digits = 6 ∷ 4 ∷ [];
    letter = b'M';
    factor = 0x100000;
    decimal = omega arith;
    unit_of = mega;
    spelled = refl;
  },
  (
    record {
      digits = 1 ∷ [];
      letter = b'G';
      factor = 0x40000000;
      decimal = omega arith;
      unit_of = giga;
      spelled = refl;
    },
    tt,
  ),
)

parse_argv_lem_example :
    parse_argv (λ s. pos 3) options
    ≡ ok (
      record { cpu_nums = pos 1; vm_memory_size = 0x40000000; filename = some (b'x' ∷ []) },
      pos 0,
    )
parse_argv_lem_example = parse_argv_lem (λ s. pos 3) options options-AreSizes

-- A processor with two leaves, of which leaf 1 is all zeros, and one further leaf.
abbrev answer : ℕ → Regs
answer i =
    if i == 1
    then record { eax = 0; ebx = 0; ecx = 0; edx = 0 }
    else record { eax = if i == 0x80000000 then i else 1; ebx = 2; ecx = 3; edx = 4 }

abbrev cpu : Cpu
cpu = record { leaf = λ i. some (answer i); subleaf = λ i j. none; significant_index = 1 }

fill_table-Ends_example : Ends (fill_table cpu)
fill_table-Ends_example =
    fill_table-Ends cpu (answer 0) (answer 0x80000000) refl refl (omega arith) (omega arith)

abbrev start : Table
start = record { entries = replicate 100 blank; cpuid_i = 0 }

start-IsTable : IsTable start
start-IsTable = record { size = length-replicate 100 blank; count = omega arith }

leaves-views_example :
    (t' : Table) × (leaves cpu (plain cpu) 4 2 0 start ≡ filled t')
    × IsTable t'
    × (views t' ≡ (0, answer 0) ∷ (2, answer 2) ∷ [])
unfolding nonzero
leaves-views_example =
    leaves-views cpu answer 3 4 2 0 start (omega arith) refl (omega arith) (λ j low high. refl)
      start-IsTable (omega arith)

-- A run that ends at a halt.
abbrev session : List Exit
session = io true 1 0x3f8 1 b'A' ∷ shutdown ∷ hlt ∷ mmio 0 0 ∷ []

run_loop_ended_iff_example : ((run_loop session).ended ≡ some 0) ↔ Stops 0 session
run_loop_ended_iff_example = run_loop_ended_iff 0 session

session_ends : (run_loop session).ended ≡ some 0
unfolding run_loop handle
session_ends = refl

zero_status : ((handle shutdown).status ≡ some 0) ↔ (shutdown ≡ hlt)
zero_status = handle_zero_iff shutdown

run_loop-rows_run :
    run_loop (mmio 0xb8000 b'A' ∷ mmio 0xb8002 b'B' ∷ mmio 0xb80a0 b'C' ∷ hlt ∷ [])
    ≡ before
        (char b'\n' ∷ char b'A' ∷ char b'B' ∷ char b'\n' ∷ char b'C' ∷ [])
        (run_loop (hlt ∷ []))
run_loop-rows_run =
    run_loop-rows 0 ((b'A' ∷ b'B' ∷ []) ∷ (b'C' ∷ []) ∷ []) (hlt ∷ []) (omega arith) (omega arith)

-- The results of a set-up in which every call succeeds but those whose result is not used.
abbrev calls : MainCalls
calls = record {
  parse = pos 0;
  init = record {
    open_kvm = pos 3;
    errno = 0;
    api_version = pos 12;
    eventfd_io = negsuc 0;
    eventfd_irq = pos 5;
  };
  open_file = pos 6;
  fstat = pos 0;
  create_vm = pos 7;
  read_file = pos 512;
  set_region1 = pos 0;
  set_region2 = pos 0;
  enable_cap = pos 0;
  gsi_routing = negsuc 0;
  create_vcpu = pos 8;
  cpuid = negsuc 0;
  mmap_size = pos 12288;
  kvm_run_size = 2352;
  irqfd = pos 0;
  irqfd_errno = 0;
  get_sregs = pos 0;
  set_sregs = pos 0;
  set_regs = pos 0;
}

setup_looping_iff_run : (setup calls ≡ looping) ↔ IsReady calls
setup_looping_iff_run = setup_looping_iff calls (λ h. cc) (λ h. cc)

setup-calls : setup calls ≡ looping
unfolding setup checks kvm_init set_ioeventfd_mmio
setup-calls = refl

regions_apart_512 :
    (¬ ((0xb8000 ≤ 0x7c00) × (0x7c00 ≤ 0xba000)))
    × (◌≢◌ {A = ℕ} 0x7c00 0x8000000)
    × (¬ (((0x7000 ≤ 0x7c00) × (0x7c00 < 0x87000)) × ((0x100000 ≤ 0x7c00) × (0x7c00 < 0x4100000))))
unfolding region1 region2
regions_apart_512 = regions_apart 4096 8192 0x7c00 (unfold region1 region2 in inl (omega arith))

starts_at_512 :
    (4096 + 0x7c00 ≡ 0x1c00 + 0x7000) × ((0x7000 ≤ 0x7c00 + 512) × (0x7c00 + 512 < 0x87000))
unfolding region1 start_regs load_address
starts_at_512 = starts_at_program 4096 512 (omega arith)

-- The first route for a number.
abbrev first_route : List Route → ℕ → Option Route
first_route [] g = none
first_route (r ∷ rs) g = if r.gsi == g then some r else first_route rs g

first_route-only : (r : Route) → first_route (r ∷ []) r.gsi ≡ some r
first_route-only r = ground arith

abbrev routing : Lookup
routing = record { lookup = first_route; lookup-empty = λ g. refl; lookup-only = first_route-only }

route_interrupts-delivers_example :
    (f : Irqfd) × (r : Route) × ((route_interrupts calls).irqfds ≡ f ∷ [])
    × (f.fd ≡ some (pos 5))
    × (first_route (route_interrupts calls).routes f.gsi ≡ none)
    × (r.address_lo / 2 ^ 20 ≡ 0xfee)
    × (r.address_lo / 2 ^ 12 % 256 ≡ 0xff)
    × (r.message % 256 ≡ 0x30)
route_interrupts-delivers_example =
    route_interrupts-delivers routing calls (λ h. cc) (λ h. cc) refl setup-calls
