-- ===== src/Vmx/Structures/Examples.antt =====
-- Two structures of a concrete processor.
use virt_learn_program.Vmx.Structures.Apart.{read16-apart}
use virt_learn_program.Vmx.Structures.{
  writel, write16, vmptrld_failed, vmcs_load, read16, Processor,
}
use virt_learn_program.Base.{
  refl, sym, ap, ◌∷◌, ◌∙◌, [], arith, ◌≢◌, ◌≡◌, ℕ, ◌==◌, ◌&&◌, Option, none, some, if◌then◌else◌,
}

record Structs : Type 0 where
  at : ℕ
  fields : ℕ → ℕ → ℕ

-- Pointer 0 is refused.
abbrev make_current : ℕ → Structs → Option Structs
make_current p s = if p == 0 then none else some (record s { at = p })

abbrev put : ℕ → ℕ → Structs → Structs
put f v s = record s { fields = λ p g. if p == s.at && g == f then v else s.fields p g }

-- The processor has a field for every number, and its writes succeed.
put_own : (f v : ℕ) (s : Structs) → (put f v s).fields s.at f ≡ v
put_own f v s = ground arith

put_other : (f v q g : ℕ) (s : Structs) → q ≢ s.at → (put f v s).fields q g ≡ s.fields q g
put_other f v q g s h = ground (arith, h)

current_at : (p : ℕ) (s s' : Structs) → make_current p s ≡ some s' → s'.at ≡ p
current_at p s s' h = ground (arith, h)

current_keeps :
    (p q f : ℕ) (s s' : Structs) → make_current p s ≡ some s' → s'.fields q f ≡ s.fields q f
current_keeps p q f s s' h = ground (arith, h)

some-inj : (a b : Structs) → ◌≡◌ {A = Option Structs} (some a) (some b) → a ≡ b
some-inj a b h = cc

abbrev processor : Processor
processor = record {
  State = Structs;
  current = λ s. s.at;
  held = λ s p f. s.fields p f;
  vmclear = make_current;
  vmptrld = make_current;
  vmwrite = λ f v s. some (put f v s);
  vmread = λ f s. s.fields s.at f;
  instruction_error = 0x4400;
  vmptrld-current = current_at;
  vmptrld-held = current_keeps;
  vmwrite-current = λ f v s s' h. ap (λ (t : Structs). t.at) (sym (some-inj (put f v s) s' h));
  vmwrite-own = λ f v s s' h.
      ap (λ (t : Structs). t.fields s.at f) (sym (some-inj (put f v s) s' h)) ∙ put_own f v s;
  vmwrite-other = λ f v q g s s' h ne.
      ap (λ (t : Structs). t.fields q g) (sym (some-inj (put f v s) s' h)) ∙ put_other f v q g s ne;
  vmread-held = λ f s. refl;
}

abbrev blank : Structs
blank = record { at = 0; fields = λ p f. 0 }

abbrev one_written : Structs
one_written = put 0x800 16 (record blank { at = 0x1000 })

abbrev both_written : Structs
both_written = put 0x800 24 (record one_written { at = 0x2000 })

read16-apart_run : read16 processor 0x800 (record both_written { at = 0x1000 }) ≡ 16
read16-apart_run =
    read16-apart processor 0x1000 0x2000 0x800 16 0x800 24 blank (record blank { at = 0x1000 })
      one_written (record one_written { at = 0x2000 }) both_written
      (record both_written { at = 0x1000 }) (λ e. omega (arith, e)) (omega arith)
      (unfold vmcs_load in refl) (unfold write16 writel in refl) (unfold vmcs_load in refl)
      (unfold write16 writel in refl) (unfold vmcs_load in refl)

-- A load of the null pointer changes nothing, and a later write goes to the structure before.
null_refused : vmcs_load processor 0 both_written ≡ (both_written, vmptrld_failed 0 ∷ [])
unfolding vmcs_load
null_refused = refl
