-- ===== src/Guest/Apic/Dump.antt =====
-- What the prints of the local APIC's registers put, and how wide their rows are.
use virt_learn_program.Base.{
  some, refl, length, ℕ, suc, List, [], ◌∷◌, ◌++◌, ap, ◌≡◌, ◌+◌, arith, ◌∙◌, ◌==◌, if◌then◌else◌,
  false,
}
use virt_learn_program.Guest.Memory.{Memory}
use virt_learn_program.Guest.Screen.Cells.{AreShown, put_all}
use virt_learn_program.Guest.Screen.Hex.{hex, hex-AreShown}
use virt_learn_program.Guest.Screen.Terminal.{AreBytes, AreBytes-append, AreShown-AreBytes}
use virt_learn_program.Guest.Screen.Texts.{
  Puts, TextAt, and_then-Puts, nothing-Puts, putc-Puts, println-Puts, print_dword_value-Puts,
  print_qword_value-Puts, puts-Puts,
}
use virt_learn_program.Guest.Apic.{
  Item, text, dword, qword, underscore, newline, show_item, show_items, dump_apic,
}
use virt_learn_program.Guest.Apic.Registers.{offset}
use virt_learn_program.Guest.Apic.Messages.{Label, apicid, content}

-- The characters of an item, for some values of the registers.
abbrev pub text_of : (ℕ → ℕ) → Item → List ℕ
text_of regs (text l) = content l
text_of regs (dword r) = hex 8 (regs (offset r))
text_of regs (qword r) = hex 16 (regs (offset r))
text_of regs underscore = b'_' ∷ []
text_of regs newline = 10 ∷ []

abbrev pub texts_of : (ℕ → ℕ) → List Item → List ℕ
texts_of regs [] = []
texts_of regs (i ∷ is) = text_of regs i ++ texts_of regs is

-- How wide the rows of a text are, of which the first has some characters already.
abbrev pub widths : ℕ → List ℕ → List ℕ
widths n [] = n ∷ []
widths n (b ∷ bs) = if b == 10 then n ∷ widths 0 bs else widths (n + 1) bs

module _ (mem : Memory) (fuel : ℕ) (address : Label → ℕ) (regs : ℕ → ℕ)
    (there : (l : Label) → TextAt mem fuel (address l) (content l)) where
  show_item-Puts : (i : Item) → Puts (show_item mem fuel address regs i) (text_of regs i)
  unfolding show_item
  show_item-Puts (text l) = puts-Puts mem fuel (address l) (content l) (there l)
  show_item-Puts (dword r) = print_dword_value-Puts (regs (offset r))
  show_item-Puts (qword r) = print_qword_value-Puts (regs (offset r))
  show_item-Puts underscore = putc-Puts b'_'
  show_item-Puts newline = println-Puts

  -- Where each text stands at its address, the calls end, and put their characters one by one.
  pub show_items-Puts :
      (is : List Item) → Puts (show_items mem fuel address regs is) (texts_of regs is)
  unfolding show_items
  show_items-Puts [] = nothing-Puts
  show_items-Puts (i ∷ is) =
      and_then-Puts (show_item mem fuel address regs i) (show_items mem fuel address regs is)
        (text_of regs i) (texts_of regs is) (show_item-Puts i) (show_items-Puts is)

content-AreShown : (l : Label) → AreShown (content l)
content-AreShown apicid = ground arith
content-AreShown _ = ground arith

widths-AreShown :
    (n : ℕ) (bs cs : List ℕ) → AreShown bs → widths n (bs ++ cs) ≡ widths (n + length bs) cs
widths-AreShown n [] cs h = ap (λ (k : ℕ). widths k cs) (omega arith)
widths-AreShown n (b ∷ bs) cs h =
    let more : (b == 10) ≡ false = ground (arith, h.0) in
    let sum : n + 1 + length bs ≡ n + suc (length bs) = omega arith in
    rw (more, widths-AreShown (n + 1) bs cs h.1, sum)

-- The same from the items alone, whatever the registers hold.
abbrev item_widths : ℕ → List Item → List ℕ
item_widths n [] = n ∷ []
item_widths n (text l ∷ is) = item_widths (n + length (content l)) is
item_widths n (dword r ∷ is) = item_widths (n + 8) is
item_widths n (qword r ∷ is) = item_widths (n + 16) is
item_widths n (underscore ∷ is) = item_widths (n + 1) is
item_widths n (newline ∷ is) = n ∷ item_widths 0 is

widths-texts_of :
    (regs : ℕ → ℕ) (n : ℕ) (is : List Item) → widths n (texts_of regs is) ≡ item_widths n is
widths-texts_of regs n [] = refl
widths-texts_of regs n (text l ∷ is) =
    widths-AreShown n (content l) (texts_of regs is) (content-AreShown l)
    ∙ widths-texts_of regs _ is
widths-texts_of regs n (dword r ∷ is) =
    widths-AreShown n (hex 8 (regs (offset r))) (texts_of regs is)
      (hex-AreShown 8 (regs (offset r)))
    ∙ widths-texts_of regs (n + 8) is
widths-texts_of regs n (qword r ∷ is) =
    widths-AreShown n (hex 16 (regs (offset r))) (texts_of regs is)
      (hex-AreShown 16 (regs (offset r)))
    ∙ widths-texts_of regs (n + 16) is
widths-texts_of regs n (underscore ∷ is) = widths-texts_of regs (n + 1) is
widths-texts_of regs n (newline ∷ is) = ap (◌∷◌ n) (widths-texts_of regs 0 is)

-- Each text stands at its address. Then from any cursor the calls of the dump end, and what they
-- leave is what putting its characters one by one leaves; and whatever the registers hold, these
-- characters are twelve rows of the widths listed, of which the last is not ended: all rows but
-- the sixth and the ninth fit the 80 columns of the screen.
pub dump_apic-rows :
    (mem : Memory) (fuel : ℕ) (address : Label → ℕ) (regs : ℕ → ℕ) (current : ℕ)
    → ((l : Label) → TextAt mem fuel (address l) (content l))
    → (show_items mem fuel address regs dump_apic current
        ≡ some (put_all (texts_of regs dump_apic) current))
      × (widths 0 (texts_of regs dump_apic)
          ≡ 47 ∷ 49 ∷ 49 ∷ 32 ∷ 78 ∷ 84 ∷ 78 ∷ 40 ∷ 115 ∷ 57 ∷ 17 ∷ 67 ∷ [])
dump_apic-rows mem fuel address regs current there = (
  show_items-Puts mem fuel address regs there dump_apic current,
  widths-texts_of regs 0 dump_apic,
)

text_of-AreBytes : (regs : ℕ → ℕ) (i : Item) → AreBytes (text_of regs i)
text_of-AreBytes regs (text l) = AreShown-AreBytes (content l) (content-AreShown l)
text_of-AreBytes regs (dword r) =
    AreShown-AreBytes (hex 8 (regs (offset r))) (hex-AreShown 8 (regs (offset r)))
text_of-AreBytes regs (qword r) =
    AreShown-AreBytes (hex 16 (regs (offset r))) (hex-AreShown 16 (regs (offset r)))
text_of-AreBytes regs underscore = omega arith
text_of-AreBytes regs newline = omega arith

pub texts_of-AreBytes : (regs : ℕ → ℕ) (is : List Item) → AreBytes (texts_of regs is)
texts_of-AreBytes regs [] = tt
texts_of-AreBytes regs (i ∷ is) =
    AreBytes-append (text_of regs i) (texts_of regs is) (text_of-AreBytes regs i)
      (texts_of-AreBytes regs is)

pub length-dump_apic : (regs : ℕ → ℕ) → length (texts_of regs dump_apic) ≡ 724
length-dump_apic regs = refl
