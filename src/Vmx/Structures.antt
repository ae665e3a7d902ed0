-- ===== src/Vmx/Structures.antt =====
-- vmx_mod/ops.h and vmx.c: making a control structure current, and writes that may fail. The
-- processor's instructions are an interface.
pub mod Apart
mod Examples
use virt_learn_program.Base.{ℕ, Option, none, some, ◌≡◌, ◌≢◌, u16, u32, List, [], ◌∷◌}

-- `vmclear`, `vmptrld`, `vmwrite` and `vmread`, with nothing for an instruction that fails; `held s p f`
-- is field `f` of the structure at `p`, and `current s` the structure that reads and writes go to.
pub record Processor : Type 1 where
  pub State : Type 0
  pub current : State → ℕ
  pub held : State → ℕ → ℕ → ℕ
  pub vmclear : ℕ → State → Option State
  pub vmptrld : ℕ → State → Option State
  pub vmwrite : ℕ → ℕ → State → Option State
  pub vmread : ℕ → State → ℕ
  pub instruction_error : ℕ  -- VM_INSTRUCTION_ERROR
  pub vmptrld-current : (p : ℕ) (s s' : State) → vmptrld p s ≡ some s' → current s' ≡ p
  pub vmptrld-held : (p q f : ℕ) (s s' : State) → vmptrld p s ≡ some s' → held s' q f ≡ held s q f
  pub vmwrite-current : (f v : ℕ) (s s' : State) → vmwrite f v s ≡ some s' → current s' ≡ current s
  pub vmwrite-own : (f v : ℕ) (s s' : State) → vmwrite f v s ≡ some s' → held s' (current s) f ≡ v
  pub vmwrite-other :
      (f v q g : ℕ) (s s' : State)
      → vmwrite f v s ≡ some s'
      → q ≢ current s
      → held s' q g ≡ held s q g
  pub vmread-held : (f : ℕ) (s : State) → vmread f s ≡ held s (current s) f

-- What is printed when an instruction fails.
pub data Message : Type 0 where
  vmclear_failed vmptrld_failed : ℕ → Message
  vmwrite_error : ℕ → ℕ → ℕ → Message

module _ (hw : Processor) where
  open hw use {State, vmclear, vmptrld, vmwrite, vmread, instruction_error}

  abbrev pub done_or : Message → State → Option State → State × List Message
  done_or m s (some s') = (s', [])
  done_or m s none = (s, m ∷ [])

  unfoldable pub vmcs_clear : ℕ → State → State × List Message
  vmcs_clear p s = done_or (vmclear_failed p) s (vmclear p s)

  unfoldable pub vmcs_load : ℕ → State → State × List Message
  vmcs_load p s = done_or (vmptrld_failed p) s (vmptrld p s)

  -- `__vmcs_writel`, with `vmwrite_error`.
  unfoldable pub writel : ℕ → ℕ → State → State × List Message
  writel field value s =
      done_or (vmwrite_error field value (u32 (vmread instruction_error s))) s
        (vmwrite field value s)

  unfoldable pub write16 : ℕ → ℕ → State → State × List Message
  unfolding writel
  write16 field value s = writel field (u16 value) s

  unfoldable pub read16 : ℕ → State → ℕ
  read16 field s = u16 (vmread field s)
