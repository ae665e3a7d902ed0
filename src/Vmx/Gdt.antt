-- ===== src/Vmx/Gdt.antt =====
-- vmx_mod/vmcs.h: the macros for segment descriptors, and the table built from them. Shifts are
-- written as products.
pub mod Decode
pub mod Tss
mod Examples
use virt_learn_program.Base.{ℕ, ◌*◌, ◌^◌, List, [], ◌∷◌, bit_and, bit_or}

abbrev pub sta_a : ℕ
sta_a = 1

abbrev pub sta_w : ℕ
sta_w = 2

abbrev pub sta_e : ℕ
sta_e = 4

abbrev pub sta_x : ℕ
sta_x = 8

abbrev pub sta_r : ℕ
sta_r = 2

abbrev pub sta_c : ℕ
sta_c = 4

abbrev pub seg_a : ℕ
seg_a = sta_a * 2 ^ 40

abbrev pub seg_w : ℕ
seg_w = sta_w * 2 ^ 40

abbrev pub seg_e : ℕ
seg_e = sta_e * 2 ^ 40

abbrev pub seg_x : ℕ
seg_x = sta_x * 2 ^ 40

abbrev pub seg_r : ℕ
seg_r = sta_r * 2 ^ 40

abbrev pub seg_c : ℕ
seg_c = sta_c * 2 ^ 40

abbrev pub seg_s : ℕ
seg_s = 2 ^ 44

abbrev pub seg_dpl : ℕ → ℕ
seg_dpl x = bit_and x 3 * 2 ^ 45

abbrev pub seg_p : ℕ
seg_p = 2 ^ 47

abbrev pub seg_l : ℕ
seg_l = 2 ^ 53

abbrev pub seg_d : ℕ
seg_d = 2 ^ 54

abbrev pub seg_g : ℕ
seg_g = 2 ^ 55

-- The shift binds before the `|`.
abbrev pub seg_lim : ℕ → ℕ
seg_lim x = bit_or (bit_and x 0xffff) (bit_and x 0xf0000 * 2 ^ 32)

-- `SEG64`, its `|` from the left.
unfoldable pub seg64 : ℕ → ℕ → ℕ
seg64 type dpl =
    let d = bit_or (bit_or (bit_or type seg_s) seg_p) seg_g in
    let d = bit_or (bit_or (bit_or d seg_l) seg_a) (seg_dpl dpl) in bit_or d (seg_lim 0xffffffff)

unfoldable pub gdt_template : List ℕ
unfolding seg64
gdt_template =
    0
    ∷ 0
    ∷ seg64 (bit_or seg_x seg_r) 0
    ∷ seg64 seg_w 0
    ∷ 0
    ∷ seg64 seg_w 3
    ∷ seg64 (bit_or seg_x seg_r) 3
    ∷ 0
    ∷ 0
    ∷ []
