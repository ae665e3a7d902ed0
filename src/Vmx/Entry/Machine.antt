-- ===== src/Vmx/Entry/Machine.antt =====
-- The machine that executes the assembly of `__vmx_run_vcpu`.
use virt_learn_program.Base.{
  ◌++◌, ◌&&◌, ◌%◌, set, get_elem?, none, some, refl, zero, ◌*◌, true, suc, ◌>>=◌, ◌-◌, false, [],
  ◌∷◌, ◌==◌, ◌+◌, out_of_bounds, length, ◌≡◌, u64, ok, if◌then◌else◌, fault, Option, Outcome, List,
  Bool, ℕ,
}
use virt_learn_program.Vmx.Guest.{X86Reg, Regs, update, rdx, rax}

-- The instructions of the code, by what they do. `load r` and `store r` move between register `r`
-- and its place in the array that `rax` points to; `peek` reads the top word of the stack, and `park`
-- writes the word under it. A jump says how many instructions it goes past, and `setbe` how many words
-- above the stack pointer its operand is.
pub data Instr : Type 0 where
  push pop peek cmp_zero load store park pop_into : X86Reg → Instr
  cmp_host_rsp save_host_rsp vmwrite_rsp vmlaunch vmresume : Instr
  je jne jmp setbe : ℕ → Instr

-- The host's registers and stack, newest word first; the array `regs` and the field `host_rsp`;
-- HOST_RSP of the current control structure; ZF of the last comparison, and whether CF or ZF
-- is set by the last entry.
pub record Cpu : Type 0 where
  pub registers : Regs
  pub stack : List ℕ
  pub regs : Regs
  pub host_rsp : ℕ
  pub vmcs_host_rsp : ℕ
  pub equal : Bool
  pub refused : Bool

-- Where the array and the stack stand, the number of the field HOST_RSP, and what an entry does: the
-- registers at the exit, or nothing if the processor refuses it. The flag tells a `vmresume`. Nothing
-- in the repository writes HOST_RIP of the control structure: what it holds is given, with the address
-- of the label `.Lkvm_vmx_return`.
pub record Memory : Type 0 where
  pub regs_at : ℕ
  pub stack_base : ℕ
  pub host_rsp_field : ℕ
  pub host_rip : ℕ
  pub return_label : ℕ
  pub enter : Bool → Regs → Option Regs

-- The lowest byte of a word of the stack, set to a flag.
abbrev pub low_byte : Bool → ℕ → ℕ
low_byte b w = w - w % 256 + (if b then 1 else 0)

module _ (m : Memory) where
  abbrev pub rsp : List ℕ → ℕ
  rsp stack = u64 (m.stack_base + 18446744073709551616 - 8 * length stack)

  -- An entry that is refused goes on after the instruction. An exit takes the stack pointer from the
  -- control structure, and goes on at HOST_RIP, which is to be the label `.Lkvm_vmx_return`.
  abbrev pub enter : Bool → Cpu → Outcome (Cpu × ℕ)
  enter resumes s = elim (m.enter resumes s.registers) [
    | none ↦ ok (record s { refused = true }, 0)
    | some g ↦
        if s.vmcs_host_rsp == rsp s.stack && m.host_rip == m.return_label
        then ok (record s { registers = g; refused = false }, 0)
        else fault out_of_bounds
  ]

  abbrev pub pop_word : List ℕ → (ℕ → List ℕ → Outcome (Cpu × ℕ)) → Outcome (Cpu × ℕ)
  pop_word [] next = fault out_of_bounds
  pop_word (w ∷ ws) next = next w ws

  abbrev pub set_low : Cpu → ℕ → Option ℕ → Outcome (Cpu × ℕ)
  set_low s k none = fault out_of_bounds
  set_low s k (some w) = ok (record s { stack = set s.stack k (low_byte s.refused w) }, 0)

  abbrev pub through_rax : Cpu → Outcome (Cpu × ℕ) → Outcome (Cpu × ℕ)
  through_rax s next = if s.registers rax == m.regs_at then next else fault out_of_bounds

  -- One instruction: the machine after it, and how many instructions are skipped.
  unfoldable pub tick : Instr → Cpu → Outcome (Cpu × ℕ)
  tick (push r) s = ok (record s { stack = s.registers r ∷ s.stack }, 0)
  tick (pop r) s =
      pop_word s.stack λ w ws. ok (record s { registers = update s.registers r w; stack = ws }, 0)
  tick (peek r) s = pop_word s.stack λ w ws. ok (record s { registers = update s.registers r w }, 0)
  tick (cmp_zero r) s = ok (record s { equal = s.registers r == 0 }, 0)
  tick (load r) s = through_rax s (ok (record s { registers = update s.registers r (s.regs r) }, 0))
  tick (store r) s = through_rax s (ok (record s { regs = update s.regs r (s.registers r) }, 0))
  tick (park r) s =
      pop_word s.stack
        λ w ws. pop_word ws λ w' ws'. ok (record s { stack = w ∷ s.registers r ∷ ws' }, 0)
  tick (pop_into r) s =
      pop_word s.stack
        λ w ws. through_rax s (ok (record s { regs = update s.regs r w; stack = ws }, 0))
  tick cmp_host_rsp s = ok (record s { equal = s.host_rsp == rsp s.stack }, 0)
  tick save_host_rsp s = ok (record s { host_rsp = rsp s.stack }, 0)
  tick vmwrite_rsp s =
      if s.registers rdx == m.host_rsp_field
      then ok (record s { vmcs_host_rsp = rsp s.stack }, 0)
      else ok (s, 0)
  tick vmlaunch s = enter false s
  tick vmresume s = enter true s
  tick (setbe k) s = set_low s k (get_elem? s.stack k)
  tick (je n) s = ok (s, if s.equal then n else 0)
  tick (jne n) s = ok (s, if s.equal then 0 else n)
  tick (jmp n) s = ok (s, n)

  -- The code from here on, of which the first `skipped` instructions are jumped over; what is left
  -- of a jump at its end goes with the machine.
  unfoldable pub exec : ℕ → List Instr → Cpu → Outcome (Cpu × ℕ)
  unfolding tick
  exec skipped [] s = ok (s, skipped)
  exec zero (i ∷ is) s = tick i s >>= λ r. exec r.1 is r.0
  exec (suc skipped) (i ∷ is) s = exec skipped is s

  pub exec-append :
      (is js : List Instr) (k : ℕ) (s : Cpu)
      → exec k (is ++ js) s ≡ (exec k is s >>= λ r. exec r.1 js r.0)
  unfolding exec
  exec-append [] js k s = refl
  exec-append (i ∷ is) js (suc k) s = exec-append is js k s
  exec-append (i ∷ is) js zero s = after (λ k t. exec-append is js k t) (tick i s)
    where
      after :
          ((k : ℕ) (t : Cpu) → exec k (is ++ js) t ≡ (exec k is t >>= λ r. exec r.1 js r.0))
          → (o : Outcome (Cpu × ℕ))
          → (o >>= λ r. exec r.1 (is ++ js) r.0)
            ≡ ((o >>= λ r. exec r.1 is r.0) >>= λ r. exec r.1 js r.0)
      after ih (ok r) = ih r.1 r.0
      after ih (fault f) = refl
