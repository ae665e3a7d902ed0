-- ===== src/Vmx/Structures/Apart.antt =====
-- Structures do not share their fields.
use virt_learn_program.Base.{
  ◌∷◌, List, ℕ, ◌%◌, ◌<◌, Option, none, some, ◌≡◌, ◌≢◌, u16, [], sym, ap, ◌∙◌, arith,
}
use virt_learn_program.Vmx.Structures.{
  Processor, Message, done_or, vmcs_load, writel, write16, read16,
}

module _ (hw : Processor) where
  open hw use {
    State, current, held, vmptrld, vmwrite, vmptrld-current, vmptrld-held, vmwrite-current,
    vmwrite-own, vmwrite-other, vmread-held,
  }

  done-quiet :
      (m : Message) (s : State) (o : Option State) (s' : State)
      → done_or hw m s o ≡ (s', [])
      → o ≡ some s'
  done-quiet m s (some t) s' h = ap (λ (r : State × List Message). some r.0) h
  done-quiet m s none s' h =
      let e : m ∷ [] ≡ [] = ap (λ (r : State × List Message). r.1) h in absurd cc

  load-quiet : (p : ℕ) (s s' : State) → vmcs_load hw p s ≡ (s', []) → vmptrld p s ≡ some s'
  unfolding vmcs_load
  load-quiet p s s' h = done-quiet _ s (vmptrld p s) s' h

  write-quiet :
      (f v : ℕ) (s s' : State) → write16 hw f v s ≡ (s', []) → vmwrite f (u16 v) s ≡ some s'
  unfolding write16 writel
  write-quiet f v s s' h = done-quiet _ s (vmwrite f (u16 v) s) s' h

  -- If a structure `p` is loaded and 16 bits are written to a field, another structure `q` is loaded
  -- and any field of it is written, and `p` is loaded again, then if none of the five prints an error,
  -- the field of `p` is read as it was written.
  pub read16-apart :
      (p q f v g w : ℕ) (s s1 s2 s3 s4 s5 : State)
      → p ≢ q
      → v < 65536
      → vmcs_load hw p s ≡ (s1, [])
      → write16 hw f v s1 ≡ (s2, [])
      → vmcs_load hw q s2 ≡ (s3, [])
      → write16 hw g w s3 ≡ (s4, [])
      → vmcs_load hw p s4 ≡ (s5, [])
      → read16 hw f s5 ≡ v
  unfolding read16
  read16-apart p q f v g w s s1 s2 s3 s4 s5 apart small h1 h2 h3 h4 h5 =
      let e1 = load-quiet p s s1 h1 in
      let e2 = write-quiet f v s1 s2 h2 in
      let e3 = load-quiet q s2 s3 h3 in
      let e4 = write-quiet g w s3 s4 h4 in
      let e5 = load-quiet p s4 s5 h5 in
      let own : held s2 p f ≡ v % 65536 =
        ap (λ (c : ℕ). held s2 c f) (sym (vmptrld-current p s s1 e1))
        ∙ vmwrite-own f (u16 v) s1 s2 e2 in
      let other : held s4 p f ≡ held s3 p f =
        vmwrite-other g (u16 w) p f s3 s4 e4 λ e. apart (e ∙ vmptrld-current q s2 s3 e3) in
      let back : held s5 p f ≡ v % 65536 =
        vmptrld-held p p f s4 s5 e5 ∙ other ∙ vmptrld-held q p f s2 s3 e3 ∙ own in
      let now =
        vmread-held f s5 ∙ ap (λ (c : ℕ). held s5 c f) (vmptrld-current p s4 s5 e5) ∙ back in
      omega (arith, now)
