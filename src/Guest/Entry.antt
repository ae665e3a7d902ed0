-- ===== src/Guest/Entry.antt =====
-- asm/learn.S: the guest's code at the user's level, which rings the monitor's doorbell.
use virt_learn_program.Base.{inr, inl, u8, ◌&&◌, true, if◌then◌else◌, refl, some, none}
use virt_learn_program.Base.{arith, [], ◌∷◌, some, ◌≡◌, ◌%◌, ◌^◌, ◌/◌, List, ℕ, Option}
use virt_learn_program.Guest.Memory.{Memory, qword_at}
use virt_learn_program.Guest.Paging.{init_paging}
use virt_learn_program.Guest.Paging.Walk.{Translation, walk}
use virt_learn_program.Guest.Paging.Pages.{Mapping, init_paging-maps}
use virt_learn_program.Vm.Exits.{Exit, mmio, report, signal, run_loop, before, handle}
use virt_learn_program.Vm.Setup.Memory.{region1, region2, IsBacked, regions_apart}

-- A store by the user's code to an address that no memory stands behind: an exit with its first
-- byte. Without the right to store there is none, but a page fault.
abbrev pub stored : Option Translation → ℕ → Option Exit
stored none value = none
stored (some t) value = if t.user && t.writable then some (mmio t.physical (u8 value)) else none

unfoldable pub user_store : Memory → ℕ → ℕ → Option Exit
user_store mem va value = stored (walk (qword_at mem) 0x200000 va) value

-- `movq $0x7d7d,(0x8000000)`
unfoldable pub user_entry : Memory → Option Exit
user_entry mem = user_store mem 0x8000000 0x7d7d

-- On the processor that starts the others, with the tables that `init_paging` leaves, the store of
-- the user's code is an exit to the monitor, at an address that no memory of the guest's stands
-- behind. The monitor reports it, signals the interrupt's event file, and goes on with the exits
-- that follow.
pub user_entry-rings :
    (eax mem1 mem2 : ℕ) (mem : Memory) (es : List Exit)
    → eax / 2 ^ 8 % 2 ≡ 1
    → (mem' : Memory) × (init_paging eax mem ≡ some mem')
      × (e : Exit) × (user_entry mem' ≡ some e)
      × (run_loop (e ∷ es) ≡ before (report ∷ signal ∷ []) (run_loop es))
      × (¬ IsBacked (region1 mem1) 0x8000000)
      × (¬ IsBacked (region2 mem2) 0x8000000)
unfolding user_entry user_store run_loop handle
user_entry-rings eax mem1 mem2 mem es first =
    let page : Mapping = record {
      virtual = 0x8000000;
      page_size = 0x200000;
      physical = 0x8000000;
      user = true;
    } in
    let (mem', ends, leads) = init_paging-maps eax mem 21 page 0 first refl (omega arith) in
    (
      mem',
      ends,
      mmio 0x8000000 0x7d,
      rw leads,
      refl,
      λ b. (regions_apart mem1 mem2 0x8000000 (inl b)).1 refl,
      λ b. (regions_apart mem1 mem2 0x8000000 (inr b)).1 refl,
    )
