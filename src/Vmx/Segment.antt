-- ===== src/Vmx/Segment.antt =====
-- vmx_mod/vmcs.h: a segment of the guest, and the attribute word that the control block wants.
pub mod Rights
use virt_learn_program.Base.{ℕ, ◌*◌, ◌^◌, ◌==◌, not, ◌||◌, if◌then◌else◌, bit_and, bit_or, u32}

-- `struct segment`, less its padding.
pub record Segment : Type 0 where
  pub base : ℕ  -- u64
  pub limit : ℕ  -- u32
  pub selector : ℕ  -- u16
  pub type : ℕ  -- u8, as all the fields below
  pub present : ℕ
  pub dpl : ℕ
  pub db : ℕ
  pub s : ℕ
  pub l : ℕ
  pub g : ℕ
  pub avl : ℕ
  pub unusable : ℕ

-- The kernel's SVM_SELECTOR_ constants.
pub record SelectorLayout : Type 0 where
  pub type_mask : ℕ
  pub s_shift : ℕ
  pub dpl_shift : ℕ
  pub p_shift : ℕ
  pub avl_shift : ℕ
  pub l_shift : ℕ
  pub db_shift : ℕ
  pub g_shift : ℕ

-- `svm_segment_access_rights`.
unfoldable pub svm_segment_access_rights : SelectorLayout → Segment → ℕ
svm_segment_access_rights c v =
    if not (v.unusable == 0) || v.present == 0
    then 2 ^ 16
    else let ar0 = bit_and v.type c.type_mask in
      let ar1 = bit_or ar0 (bit_and v.s 1 * 2 ^ c.s_shift) in
      let ar2 = bit_or ar1 (bit_and v.s 3 * 2 ^ c.dpl_shift) in
      let ar3 = bit_or ar2 (bit_and v.present 1 * 2 ^ c.p_shift) in
      let ar4 = bit_or ar3 (bit_and v.avl 1 * 2 ^ c.avl_shift) in
      let ar5 = bit_or ar4 (bit_and v.l 1 * 2 ^ c.l_shift) in
      let ar6 = bit_or ar5 (bit_and v.db 1 * 2 ^ c.db_shift) in
      u32 (bit_or ar6 (bit_and v.g 1 * 2 ^ c.g_shift))
