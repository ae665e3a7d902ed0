-- ===== src/Guest/Handlers/Returns.antt =====
-- What the handlers that return make the monitor print, and what else they leave.
use virt_learn_program.Guest.Screen.Terminal.{
  run_loop-put_all, AreBytes-append, typed, at, AreBytes,
}
use virt_learn_program.Vm.Exits.{before, run_loop, Exit}
use virt_learn_program.Base.{
  test_bit-pow_ne, false, test_bit-pow_self, test_bit-le, ℕ_discrete, test_bit-bit_or, test_bit-mod,
  ◌-◌, bit_or, ◌/◌, ◌%◌, ◌==◌, if◌then◌else◌, test_bit, refl, length-append, suc, ◌∙◌, arith, ◌≤◌,
  ◌⊎◌, ◌^◌, ◌<◌, ◌*◌, length, ◌+◌, Option, ℕ, List, some, [], ◌∷◌, ◌++◌, ap, ◌≡◌,
}
use virt_learn_program.Guest.Memory.{
  bytes_at-store_own, bytes_at-same, bytes_at, store, store-outside, Memory,
}
use virt_learn_program.Guest.Screen.{and_then, Shown, puts, println}
use virt_learn_program.Guest.Screen.Cells.{IsString, put_all}
use virt_learn_program.Guest.Screen.Texts.{TextAt, and_then-Puts, println-Puts, puts-Puts}
use virt_learn_program.Guest.Apic.{show_items, dump_apic}
use virt_learn_program.Guest.Apic.Messages.{Label, content}
use virt_learn_program.Guest.Apic.Dump.{
  texts_of, show_items-Puts, length-dump_apic, texts_of-AreBytes,
}
use virt_learn_program.Guest.Handlers.{
  bytes_at, db_handler, store, Returned, and_then, Shown, returned, apic_timer_handler,
}

-- A text with its NUL is apart from the eight bytes of the cursor.
abbrev pub IsApart : ℕ → ℕ → List ℕ → Type 0
IsApart video_current a t = (a + length t < video_current) ⊎ (video_current + 8 ≤ a)

-- The text of the timer's handler.
abbrev pub timer_text : (ℕ → ℕ) → List ℕ → List ℕ → List ℕ
timer_text regs t1 t2 = t1 ++ (10 ∷ [] ++ (texts_of regs dump_apic ++ (10 ∷ [] ++ (t2 ++ 10 ∷ []))))

module _ (mem : Memory) (fuel at_msg1 at_msg2 : ℕ) (address : Label → ℕ) (regs : ℕ → ℕ)
    (t1 t2 : List ℕ) (m1 : TextAt mem fuel at_msg1 t1) (m2 : TextAt mem fuel at_msg2 t2)
    (there : (l : Label) → TextAt mem fuel (address l) (content l)) where
  timer-text :
      (video_current dr7 current : ℕ)
      → apic_timer_handler video_current mem fuel address regs at_msg1 at_msg2 dr7 current
        ≡ some (record {
          shown = put_all (timer_text regs t1 t2) current;
          memory = store 8 video_current (put_all (timer_text regs t1 t2) current).current mem;
          dr7 = dr7;
          apic_writes = (0x8000b0, 0) ∷ [];
        })
  unfolding apic_timer_handler
  timer-text video_current dr7 current =
      let s5 = t2 ++ 10 ∷ [] in
      let s4 = 10 ∷ [] ++ s5 in
      let s3 = texts_of regs dump_apic ++ s4 in
      let line : ℕ → Option Shown = λ c. some (println c) in
      let f5 : ℕ → Option Shown = λ c. and_then (puts mem fuel at_msg2 c) line in
      let f4 : ℕ → Option Shown = λ c. and_then (line c) f5 in
      let f3 : ℕ → Option Shown = λ c. and_then (show_items mem fuel address regs dump_apic c) f4 in
      let f2 : ℕ → Option Shown = λ c. and_then (line c) f3 in
      let p5 =
        and_then-Puts (puts mem fuel at_msg2) line t2 (10 ∷ []) (puts-Puts mem fuel at_msg2 t2 m2)
          println-Puts in
      let p4 = and_then-Puts line f5 (10 ∷ []) s5 println-Puts p5 in
      let dumped = show_items-Puts mem fuel address regs there dump_apic in
      let p3 =
        and_then-Puts (show_items mem fuel address regs dump_apic) f4 (texts_of regs dump_apic) s4
          dumped p4 in
      let p2 = and_then-Puts line f3 (10 ∷ []) s3 println-Puts p3 in
      let p1 =
        and_then-Puts (puts mem fuel at_msg1) f2 t1 (10 ∷ [] ++ s3)
          (puts-Puts mem fuel at_msg1 t1 m1) p2 in
      ap (returned video_current mem dr7 ((0x8000b0, 0) ∷ [])) (p1 current)

  -- Each text of the dump and of the handler stands at its address, and the cursor is at a cell
  -- that is not absurdly far down. Then the timer's handler ends, and the monitor prints of its
  -- stores what the terminal prints, from that cell on, of the first message, the dump of the
  -- registers' values and the second message, each on lines of its own, and goes on with the exits
  -- that follow. But for what its calls push below the stack pointer, the handler changes no memory
  -- other than the eight bytes of `video_current`, which are apart from the texts: there it leaves
  -- the cursor. It writes nothing to the local APIC but the acknowledgement.
  pub apic_timer_handler-prints :
      (video_current dr7 k : ℕ) (es : List Exit)
      → IsApart video_current at_msg1 t1
      → IsApart video_current at_msg2 t2
      → ((l : Label) → IsApart video_current (address l) (content l))
      → k + 80 * (length t1 + length t2 + 727) < 2 ^ 60
      → AreBytes t1
      → AreBytes t2
      → (r : Returned) × (apic_timer_handler video_current mem fuel address regs at_msg1 at_msg2 dr7
            (at k)
          ≡ some r)
        × (run_loop (r.shown.exits ++ es) ≡ before (typed k (timer_text regs t1 t2)) (run_loop es))
        × (r.memory ≡ store 8 video_current r.shown.current mem)
        × (r.apic_writes ≡ (0x8000b0, 0) ∷ [])
  apic_timer_handler-prints video_current dr7 k es a1 a2 al small b1 b2 =
      let rest = texts_of regs dump_apic ++ (10 ∷ [] ++ (t2 ++ 10 ∷ [])) in
      let l1 : length (t1 ++ 10 ∷ rest) ≡ length t1 + suc (length rest) =
        length-append t1 (10 ∷ rest) in
      let l2 : length rest ≡ 724 + suc (length (t2 ++ 10 ∷ [])) =
        length-append (texts_of regs dump_apic) (10 ∷ (t2 ++ 10 ∷ []))
        ∙ ap (λ (n : ℕ). n + suc (length (t2 ++ 10 ∷ []))) (length-dump_apic regs) in
      let l3 : length (t2 ++ 10 ∷ []) ≡ length t2 + 1 = length-append t2 (10 ∷ []) in
      let ended : AreBytes (10 ∷ []) = omega arith in
      let bytes2 = AreBytes-append t2 (10 ∷ []) b2 ended in
      let bytes3 =
        AreBytes-append (texts_of regs dump_apic) (10 ∷ (t2 ++ 10 ∷ []))
          (texts_of-AreBytes regs dump_apic) (omega arith, bytes2) in
      let bytes = AreBytes-append t1 (10 ∷ rest) b1 (omega arith, bytes3) in
      (
        _,
        timer-text video_current dr7 (at k),
        run_loop-put_all k (timer_text regs t1 t2) es (omega (arith, l1, l2, l3)) bytes,
        refl,
        refl,
      )

-- Where a string stands, it still stands after a store elsewhere.
IsString-store :
    (n a v : ℕ) (mem : Memory) (s : ℕ) (bs : List ℕ)
    → ((s + length bs < a) ⊎ (a + n ≤ s))
    → IsString mem s bs
    → IsString (store n a v mem) s bs
IsString-store n a v mem s [] apart h = store-outside n a v mem s (omega arith) ∙ h
IsString-store n a v mem s (b ∷ bs) apart h = (
  store-outside n a v mem s (omega arith) ∙ h.0,
  h.1,
  IsString-store n a v mem (s + 1) bs (omega arith) h.2,
)

-- Bit 16 set in 32 bits.
set_bit-flags :
    (n w : ℕ)
    → n < 32
    → test_bit n (bit_or w (2 ^ 16) % 2 ^ 32) ≡ (if n == 16 then 1 else test_bit n w)
set_bit-flags n w h =
    test_bit-mod n 32 (bit_or w (2 ^ 16)) h
    ∙ test_bit-bit_or n w (2 ^ 16)
    ∙ elim (ℕ_discrete n 16) [
      | yes same ↦ rw same (omega (arith, test_bit-le 16 w, test_bit-pow_self 16))
      | no other ↦
          let miss : (n == 16) ≡ false = ground (arith, other) in
          rw miss (omega (arith, test_bit-pow_ne n 16 other))
    ]

-- The debug handler's messages stand at their addresses, the second one apart from the flags on
-- the stack, and the eight bytes of `video_current` apart from all of these; the cursor is at a cell
-- that is not absurdly far down. Then the handler ends, the
-- monitor prints what the terminal prints of both messages from that cell on, with no new line
-- between them, and goes on with the exits that follow. In the flags that the handler returns to
-- bit 16 is set and each other bit is as it was. But for what its calls push below the stack
-- pointer, each byte of memory outside the flags and `video_current` is as it was; and of `dr7` the lowest bit is cleared and the others are as they were.
pub db_handler-resumes :
    (video_current : ℕ) (mem : Memory) (fuel msg1 msg2 sp dr7 k n b : ℕ) (t1 t2 : List ℕ)
    (es : List Exit)
    → TextAt mem fuel msg1 t1
    → TextAt mem fuel msg2 t2
    → ((msg2 + length t2 < sp + 16) ⊎ (sp + 20 ≤ msg2))
    → IsApart video_current msg1 t1
    → IsApart video_current msg2 t2
    → ((video_current + 8 ≤ sp + 16) ⊎ (sp + 20 ≤ video_current))
    → k + 80 * (length t1 + length t2) < 2 ^ 60
    → AreBytes t1
    → AreBytes t2
    → n < 32
    → ((b < sp + 16) ⊎ (sp + 20 ≤ b))
    → ((b < video_current) ⊎ (video_current + 8 ≤ b))
    → (r : Returned) × (db_handler video_current mem fuel msg1 msg2 sp dr7 (at k) ≡ some r)
      × (run_loop (r.shown.exits ++ es) ≡ before (typed k (t1 ++ t2)) (run_loop es))
      × (test_bit n (bytes_at r.memory 4 (sp + 16))
          ≡ (if n == 16 then 1 else test_bit n (bytes_at mem 4 (sp + 16))))
      × (r.memory b ≡ mem b)
      × (r.dr7 % 2 ≡ 0)
      × (r.dr7 / 2 ≡ dr7 / 2)
unfolding db_handler
db_handler-resumes video_current mem fuel msg1 msg2 sp dr7 k n b t1 t2 es m1 m2 apart a1 a2 a3 small
      b1 b2 hn outside off_cursor =
    let flags = bit_or (bytes_at mem 4 (sp + 16)) (2 ^ 16) in
    let mem' = store 4 (sp + 16) flags mem in
    let m2' : TextAt mem' fuel msg2 t2 = record {
      somewhere = m2.somewhere;
      string = IsString-store 4 (sp + 16) flags mem msg2 t2 (omega arith) m2.string;
      enough = m2.enough;
    } in
    let puts1 = puts-Puts mem fuel msg1 t1 m1 in
    let puts2 = puts-Puts mem' fuel msg2 t2 m2' in
    let cursor = (put_all (t1 ++ t2) (at k)).current in
    let both = and_then-Puts (puts mem fuel msg1) (puts mem' fuel msg2) t1 t2 puts1 puts2 in
    (
      _,
      ap (returned video_current mem' (dr7 - dr7 % 2) []) (both (at k)),
      run_loop-put_all k (t1 ++ t2) es (omega (arith, length-append t1 t2))
          (AreBytes-append t1 t2 b1 b2),
      ap (test_bit n) (
            bytes_at-same (store 8 video_current cursor mem') mem' 4 (sp + 16)
              (λ c low high. store-outside 8 video_current cursor mem' c (omega arith))
            ∙ bytes_at-store_own (sp + 16) flags mem)
          ∙ set_bit-flags n (bytes_at mem 4 (sp + 16)) hn,
      store-outside 8 video_current cursor mem' b (omega arith)
          ∙ store-outside 4 (sp + 16) flags mem b (omega arith),
      omega arith,
      omega arith,
    )
