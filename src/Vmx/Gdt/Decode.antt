-- ===== src/Vmx/Gdt/Decode.antt =====
-- What a processor reads in a descriptor of SEG64.
use virt_learn_program.Base.{
  ℕ, zero, suc, ◌+◌, ◌*◌, ◌/◌, ◌%◌, ◌<◌, ◌^◌, ◌≡◌, Bool, true, false, if◌then◌else◌, bit_or,
  bit_and, refl, arith, bit_and-three, ap, ◌∙◌,
}
use virt_learn_program.Vmx.Gdt.{seg_w, seg_e, seg_x, seg64}

-- The fields of a segment descriptor, of which `executable`, `conforming` (of data: expand down) and
-- `writable` (of code: readable) are the upper bits of its type.
pub record Descriptor : Type 0 where
  pub base : ℕ
  pub limit : ℕ
  pub executable : ℕ
  pub conforming : ℕ
  pub writable : ℕ
  pub accessed : ℕ
  pub not_system : ℕ
  pub dpl : ℕ
  pub present : ℕ
  pub available : ℕ
  pub long : ℕ
  pub default_32 : ℕ
  pub in_pages : ℕ

abbrev pub decode : ℕ → Descriptor
decode d = record {
  base = d / 2 ^ 16 % 2 ^ 24 + d / 2 ^ 56 * 2 ^ 24;
  limit = d % 2 ^ 16 + d / 2 ^ 48 % 16 * 2 ^ 16;
  executable = d / 2 ^ 43 % 2;
  conforming = d / 2 ^ 42 % 2;
  writable = d / 2 ^ 41 % 2;
  accessed = d / 2 ^ 40 % 2;
  not_system = d / 2 ^ 44 % 2;
  dpl = d / 2 ^ 45 % 4;
  present = d / 2 ^ 47 % 2;
  available = d / 2 ^ 52 % 2;
  long = d / 2 ^ 53 % 2;
  default_32 = d / 2 ^ 54 % 2;
  in_pages = d / 2 ^ 55 % 2;
}

-- A type made of the macros for the flags.
abbrev pub flags : Bool → Bool → Bool → ℕ
flags x e w =
    bit_or (bit_or (if x then seg_x else 0) (if e then seg_e else 0)) (if w then seg_w else 0)

abbrev pub bit : Bool → ℕ
bit b = if b then 1 else 0

-- A present, accessed 64-bit segment that covers all of memory.
abbrev pub flat : Bool → Bool → Bool → ℕ → Descriptor
flat x e w level = record {
  base = 0;
  limit = 0xfffff;
  executable = bit x;
  conforming = bit e;
  writable = bit w;
  accessed = 1;
  not_system = 1;
  dpl = level;
  present = 1;
  available = 0;
  long = 1;
  default_32 = 0;
  in_pages = 1;
}

same_level :
    (x e w : Bool) (dpl r : ℕ)
    → bit_and dpl 3 ≡ r
    → bit_and r 3 ≡ r
    → seg64 (flags x e w) dpl ≡ seg64 (flags x e w) r
unfolding seg64
same_level x e w dpl r h again = rw (h, again) refl

abbrev Decodes : Bool → Bool → Bool → ℕ → Type 0
Decodes x e w r = decode (seg64 (flags x e w) r) ≡ flat x e w r

four_levels : (x e w : Bool) → Decodes x e w 0 × Decodes x e w 1 × Decodes x e w 2 × Decodes x e w 3
unfolding seg64
four_levels true true true = (refl, refl, refl, refl)
four_levels true true false = (refl, refl, refl, refl)
four_levels true false true = (refl, refl, refl, refl)
four_levels true false false = (refl, refl, refl, refl)
four_levels false true true = (refl, refl, refl, refl)
four_levels false true false = (refl, refl, refl, refl)
four_levels false false true = (refl, refl, refl, refl)
four_levels false false false = (refl, refl, refl, refl)

decode_level : (x e w : Bool) (r : ℕ) → r < 4 → Decodes x e w r
decode_level x e w zero h = (four_levels x e w).0
decode_level x e w (suc zero) h = (four_levels x e w).1
decode_level x e w (suc (suc zero)) h = (four_levels x e w).2
decode_level x e w (suc (suc (suc zero))) h = (four_levels x e w).3
decode_level x e w (suc (suc (suc (suc r)))) h = absurd (omega arith)

-- For every type made of the flags and every number as the privilege level, the descriptor is a
-- present, accessed segment of 64-bit code or data from 0 over all 2 ^ 20 pages, with the flags that
-- it was given, and its level is the number modulo 4.
pub seg64-decode :
    (x e w : Bool) (dpl : ℕ) → decode (seg64 (flags x e w) dpl) ≡ flat x e w (dpl % 4)
seg64-decode x e w dpl =
    ap decode
      (same_level x e w dpl (dpl % 4) (bit_and-three dpl) (bit_and-three (dpl % 4) ∙ omega arith))
    ∙ decode_level x e w (dpl % 4) (omega arith)
