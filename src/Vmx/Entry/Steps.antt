-- ===== src/Vmx/Entry/Steps.antt =====
-- The four parts of the code, one after another.
use mathlib.Core.Path.{ap, fun_ext}
use virt_learn_program.Base.{
  ◌++◌, ◌>>=◌, Outcome, ap, Bool, none, some, not, ◌∙◌, [], false, true, arith, inr, inl,
  Bool-cases, ◌∷◌, ok, ◌≡◌, ◌==◌, ◌<◌, suc, length, set, get_elem?, get_elem?-set_ne,
  get_elem?-set_self, ℕ, List, refl,
}
use virt_learn_program.Vmx.Guest.{X86Reg, rax, rdx, rsp, rip, Regs, update, index}
use virt_learn_program.Vmx.Entry.{
  Instr, loads, stores, moved, Operands, prologue, load_guest, enter_guest, store_guest, code,
  run_vcpu,
}
use virt_learn_program.Vmx.Entry.Machine
use virt_learn_program.Vmx.Entry.Machine.{low_byte, Instr, Cpu, Memory, exec, exec-append}

-- One file of registers, with the stack pointer and the instruction pointer of another.
unfoldable pub except_pointers : Regs → Regs → Regs
except_pointers a b rsp = b rsp
except_pointers a b rip = b rip
except_pointers a b r = a r

-- The registers `rs` of one file taken over into another.
unfoldable pub take_over : Regs → List X86Reg → Regs → Regs
take_over a [] b = b
take_over a (r ∷ rs) b = take_over a rs (update b r (a r))

abbrev AreNotRax : List X86Reg → Type 0
AreNotRax [] = Unit
AreNotRax (r ∷ rs) = ((index rax == index r) ≡ false) × AreNotRax rs

module _ (m : Memory) where
  exec-loads :
      (rs : List X86Reg) (t : Cpu)
      → AreNotRax rs
      → (t.registers rax == m.regs_at) ≡ true
      → exec m 0 (loads rs) t ≡ ok (record t { registers = take_over t.regs rs t.registers }, 0)
  unfolding exec take_over
  exec-loads [] t h at = refl
  exec-loads (r ∷ rs) t h at = rw at (
      exec-loads rs (record t { registers = update t.registers r (t.regs r) }) h.1
        (unfold update in rw h.0 at))

  exec-stores :
      (rs : List X86Reg) (t : Cpu)
      → (t.registers rax == m.regs_at) ≡ true
      → exec m 0 (stores rs) t ≡ ok (record t { regs = take_over t.registers rs t.regs }, 0)
  unfolding exec take_over
  exec-stores [] t at = refl
  exec-stores (r ∷ rs) t at =
      rw at (exec-stores rs (record t { regs = update t.regs r (t.registers r) }) at)

moved-AreNotRax : AreNotRax moved
moved-AreNotRax = ground arith

-- All registers but the two pointers.
take_over_all :
    (a b : Regs) (w : ℕ)
    → update (take_over a moved (update b rax w)) rax (a rax) ≡ except_pointers a b
take_over_all a b w = fun_ext (every a b w)
  where
    every :
        (a b : Regs) (w : ℕ) (r : X86Reg)
        → update (take_over a moved (update b rax w)) rax (a rax) r ≡ except_pointers a b r
    every a b w rax = unfold update take_over except_pointers in refl
    every a b w _ = unfold update take_over except_pointers in refl

take_over_stored :
    (a b : Regs) (w : ℕ)
    → take_over (update a rax w) moved (update b rax (a rax)) ≡ except_pointers a b
take_over_stored a b w = fun_ext (every a b w)
  where
    every :
        (a b : Regs) (w : ℕ) (r : X86Reg)
        → take_over (update a rax w) moved (update b rax (a rax)) r ≡ except_pointers a b r
    every a b w rax = unfold update take_over except_pointers in refl
    every a b w _ = unfold update take_over except_pointers in refl

exec_then :
    (m : Memory) (is js : List Instr) (s t : Cpu)
    → exec m 0 is s ≡ ok (t, 0)
    → exec m 0 (is ++ js) s ≡ exec m 0 js t
exec_then m is js s t e = exec-append m is js 0 s ∙ rw e

module _ (m : Memory) (o : Operands) (s : Cpu) where
  -- The stack at the entry.
  abbrev pub pushed : List ℕ
  pushed = s.registers o.regs ∷ s.registers o.regs ∷ s.registers o.vmx ∷ s.stack

  abbrev pub prepared : Cpu
  prepared = record s {
    stack = pushed;
    host_rsp = Machine.rsp m pushed;
    vmcs_host_rsp = Machine.rsp m pushed;
    equal = s.host_rsp == Machine.rsp m pushed;
  }

  exec-prologue :
      s.registers rdx ≡ m.host_rsp_field
      → s.host_rsp ≡ s.vmcs_host_rsp
      → exec m 0 (prologue o) s ≡ ok (prepared, 0)
  unfolding exec prologue
  exec-prologue field coherent = elim (Bool-cases (s.host_rsp == Machine.rsp m pushed)) [
    | inl same ↦ ground arith
    | inr moved ↦ ground arith
  ]

  -- What the test of `launched` reads: `rax` holds the array's address by then.
  abbrev pub tested : ℕ
  tested = update s.registers rax (s.registers o.regs) o.launched

  abbrev pub loaded : Cpu
  loaded = record prepared { registers = except_pointers s.regs s.registers; equal = tested == 0 }

  exec-load_guest :
      (s.registers o.regs == m.regs_at) ≡ true → exec m 0 (load_guest o) prepared ≡ ok (loaded, 0)
  unfolding exec load_guest
  exec-load_guest at =
      let host = update s.registers rax (s.registers o.regs) in
      let t : Cpu = record prepared { registers = host; equal = host o.launched == 0 } in
      let back : (take_over s.regs moved host rax == m.regs_at) ≡ true =
        unfold take_over update in at in
      exec-append m (loads moved) (Machine.load rax ∷ []) 0 t
      ∙ rw (
        exec-loads m moved t moved-AreNotRax (unfold update in at),
        back,
        take_over_all s.regs s.registers (s.registers o.regs),
      )

  pub enter_exits :
      (resumes : Bool) (t : Cpu) (g : Regs)
      → m.enter resumes t.registers ≡ some g
      → t.vmcs_host_rsp ≡ Machine.rsp m t.stack
      → m.host_rip ≡ m.return_label
      → Machine.enter m resumes t ≡ ok (record t { registers = g; refused = false }, 0)
  enter_exits resumes t g e on_stack label = ground arith

  pub enter_refuses :
      (resumes : Bool) (t : Cpu)
      → m.enter resumes t.registers ≡ none
      → Machine.enter m resumes t ≡ ok (record t { refused = true }, 0)
  enter_refuses resumes t e = ground arith

  -- The jumps lead to one of the two entries, and past the other.
  exec-enter_guest :
      (flag : Bool) (t' : Cpu)
      → Machine.enter m (not flag) (record loaded { equal = flag }) ≡ ok (t', 0)
      → exec m 0 enter_guest (record loaded { equal = flag }) ≡ ok (t', 0)
  unfolding exec enter_guest
  exec-enter_guest true t' e =
      ap
        (λ (x : Outcome (Cpu × ℕ)).
          x >>= λ r. exec m r.1 (Machine.jmp 1 ∷ Machine.vmresume ∷ []) r.0)
        e
  exec-enter_guest false t' e = ap (λ (x : Outcome (Cpu × ℕ)). x >>= λ r. exec m r.1 [] r.0) e

  -- The machine at the end: the array holds the registers `g`, and of the stack a byte is changed. The
  -- operand of `setbe` is counted from a stack pointer that is a word too low.
  abbrev pub stored : ℕ → ℕ → Cpu → Cpu
  stored j w t = record t {
    registers = update (update t.registers rax (s.registers o.regs)) o.vmx (s.registers o.vmx);
    stack = set s.stack j (low_byte t.refused w);
    regs = except_pointers t.registers s.regs;
  }

  exec-store_guest :
      (g : Regs) (refused : Bool) (j w : ℕ)
      → o.fail ≡ suc j
      → get_elem? s.stack j ≡ some w
      → (s.registers o.regs == m.regs_at) ≡ true
      → exec m 0 (store_guest o) (record loaded { registers = g; refused = refused })
        ≡ ok (stored j w (record loaded { registers = g; refused = refused }), 0)
  unfolding exec store_guest
  exec-store_guest g refused j w slot word at =
      let held = update g rax (s.registers o.regs) in
      let back : (held rax == m.regs_at) ≡ true = unfold update in at in
      let array = update s.regs rax (g rax) in
      let t : Cpu = record loaded {
        registers = held;
        stack = s.registers o.vmx ∷ s.stack;
        regs = array;
        refused = refused;
      } in
      rw back (
        exec-append m (stores moved) (Machine.setbe o.fail ∷ Machine.pop o.vmx ∷ []) 0 t
        ∙ rw (
          exec-stores m moved t back,
          take_over_stored g s.regs (s.registers o.regs),
          slot,
          word,
        ))

-- The caller's side: the operands and the constant are in their registers, the field `host_rsp` is
-- what was last written to the control structure, and HOST_RIP is the label after the entry.
pub record IsCalled (m : Memory) (o : Operands) (s : Cpu) : Type 0 where
  pub array : s.registers o.regs ≡ m.regs_at
  pub field : s.registers rdx ≡ m.host_rsp_field
  pub noted : s.host_rsp ≡ s.vmcs_host_rsp
  pub label : m.host_rip ≡ m.return_label

-- The variable `fail` is at word `j + 1` of the stack, above the word `w`.
pub record IsPlaced (o : Operands) (j w : ℕ) (s : Cpu) : Type 0 where
  pub slot : o.fail ≡ suc j
  pub word : get_elem? s.stack j ≡ some w
  pub inside : suc j < length s.stack

-- The registers that the guest is entered with.
abbrev pub guest : Cpu → Regs
guest s = except_pointers s.regs s.registers

module _ (m : Memory) (o : Operands) (s : Cpu) (called : IsCalled m o s) (j w : ℕ)
    (placed : IsPlaced o j w s) where
  -- `fail` is set to 0 at first.
  abbrev pub started : Cpu
  started = record s { stack = set s.stack o.fail 0 }

  started-word : get_elem? started.stack j ≡ some w
  started-word = rw (get_elem?-set_ne s.stack o.fail j 0 (omega (arith, placed.slot))) placed.word

  still_zero : (v : ℕ) → get_elem? (set started.stack j v) o.fail ≡ some 0
  still_zero v =
      rw (get_elem?-set_ne started.stack j o.fail v (omega (arith, placed.slot)))
        (get_elem?-set_self s.stack o.fail 0 (omega (arith, placed.slot, placed.inside)))

  pub run_vcpu_lem :
      (g : Regs) (refused : Bool)
      → Machine.enter m (not (tested m o s == 0)) (loaded m o started)
        ≡ ok (record (loaded m o started) { registers = g; refused = refused }, 0)
      → run_vcpu m o s
        ≡ ok (record {
          cpu =
              stored m o started j w
                (record (loaded m o started) { registers = g; refused = refused });
          fail = 0;
        })
  unfolding run_vcpu code
  run_vcpu_lem g refused e =
      let at : (s.registers o.regs == m.regs_at) ≡ true = ground (arith, called) in
      let first = exec-prologue m o started called.field called.noted in
      let second = exec-load_guest m o started at in
      let third = exec-enter_guest m o started (tested m o s == 0) _ e in
      let last = exec-store_guest m o started g refused j w placed.slot started-word at in
      let all =
        exec_then m (prologue o) (load_guest o ++ (enter_guest ++ store_guest o)) started _ first
        ∙ exec_then m (load_guest o) (enter_guest ++ store_guest o) _ _ second
        ∙ exec_then m enter_guest (store_guest o) _ _ third
        ∙ last in
      rw (all, still_zero (low_byte refused w))
