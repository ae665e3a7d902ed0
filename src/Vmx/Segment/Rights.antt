-- ===== src/Vmx/Segment/Rights.antt =====
-- What the attribute word says of a segment, with the constants that AMD's layout gives.
use virt_learn_program.Base.{
  ◌+◌, ◌*◌, ◌/◌, ◌%◌, ◌≡◌, ◌≢◌, arith, bit_or-above, bit_and-one, bit_and-three, bit_and-fifteen,
}
use virt_learn_program.Vmx.Segment.{Segment, SelectorLayout, svm_segment_access_rights}

-- Type in bits 0 to 3, S in 4, the privilege level in 5 and 6, P in 7, AVL in 8, L in 9, D/B in 10
-- and G in 11.
abbrev pub amd : SelectorLayout
amd = record {
  type_mask = 15;
  s_shift = 4;
  dpl_shift = 5;
  p_shift = 7;
  avl_shift = 8;
  l_shift = 9;
  db_shift = 10;
  g_shift = 11;
}

abbrev pub IsPresent : Segment → Type 0
IsPresent v = (v.unusable ≡ 0) × (v.present ≢ 0)

-- The fields, one above the other: for a present and usable segment the word is their sum.
pub access_rights_sum :
    (v : Segment)
    → IsPresent v
    → svm_segment_access_rights amd v
      ≡ v.type % 16
        + v.s % 2 * 16
        + v.s % 4 * 32
        + v.present % 2 * 128
        + v.avl % 2 * 256
        + v.l % 2 * 512
        + v.db % 2 * 1024
        + v.g % 2 * 2048
unfolding svm_segment_access_rights
access_rights_sum v p =
    let a1 = v.type % 16 + v.s % 2 * 16 in
    let a2 = a1 + v.s % 4 * 32 in
    let a3 = a2 + v.present % 2 * 128 in
    let a4 = a3 + v.avl % 2 * 256 in
    let a5 = a4 + v.l % 2 * 512 in
    let a6 = a5 + v.db % 2 * 1024 in
    simp (bit_and-fifteen, bit_and-one, bit_and-three)
      (ground (
        arith,
        bit_or-above 4 (v.s % 2) (v.type % 16) (omega arith),
        bit_or-above 5 (v.s % 4) a1 (omega arith),
        bit_or-above 7 (v.present % 2) a2 (omega arith),
        bit_or-above 8 (v.avl % 2) a3 (omega arith),
        bit_or-above 9 (v.l % 2) a4 (omega arith),
        bit_or-above 10 (v.db % 2) a5 (omega arith),
        bit_or-above 11 (v.g % 2) a6 (omega arith),
      ))

-- With AMD's layout, the attribute word of a present and usable segment holds its type, S, P, AVL,
-- L, D/B and G where the layout has them. The place of the privilege level holds the low two bits
-- of the S field, whatever the segment's own privilege level is.
pub access_rights_fields :
    (v : Segment)
    → IsPresent v
    → let ar = svm_segment_access_rights amd v in
      (ar % 16 ≡ v.type % 16)
      × (ar / 16 % 2 ≡ v.s % 2)
      × (ar / 32 % 4 ≡ v.s % 4)
      × (ar / 128 % 2 ≡ v.present % 2)
      × (ar / 256 % 2 ≡ v.avl % 2)
      × (ar / 512 % 2 ≡ v.l % 2)
      × (ar / 1024 % 2 ≡ v.db % 2)
      × (ar / 2048 ≡ v.g % 2)
access_rights_fields v p = omega (arith, access_rights_sum v p)
