-- ===== src/Vmx/Intercept/Initial.antt =====
-- Which bits of the intercept word are set.
use virt_learn_program.Base.{
  test_bit-complement, test_bit-bit_and, ℕ, ◌^◌, ◌<◌, ◌≡◌, refl, arith, List, [], ◌∷◌, u64, ◌==◌,
  ◌||◌, Bool, false, if◌then◌else◌, test_bit, test_bit-bit_or, test_bit-pow_self, test_bit-pow_ne,
  test_bit-le, test_bit-mod,
}
use virt_learn_program.Vmx.Intercept.{
  complement, clr_intercept, Intercept, Control, set_intercept, initial, set_intercepts, Machine,
  svm_init_vmcb,
}

-- Bit `b` is the number of one of the listed intercepts.
abbrev pub is_listed : (Intercept → ℕ) → ℕ → List Intercept → Bool
is_listed number b [] = false
is_listed number b (i ∷ is) = b == number i || is_listed number b is

single_bit : (b n : ℕ) → b < 64 → test_bit b (u64 (2 ^ n)) ≡ test_bit b (2 ^ n)
single_bit b n h = test_bit-mod b 64 (2 ^ n) h

-- One call sets its bit, and leaves the other 63 as they were.
pub set_intercept-test_bit :
    (c : Control) (b n : ℕ)
    → b < 64
    → test_bit b (set_intercept c n).intercept ≡ (if b == n then 1 else test_bit b c.intercept)
unfolding set_intercept
set_intercept-test_bit c b n h = ground (
  arith,
  test_bit-bit_or b c.intercept (u64 (2 ^ n)),
  single_bit b n h,
  test_bit-pow_self b,
  test_bit-pow_ne b n,
  test_bit-le b c.intercept,
)

set_intercepts-test_bit :
    (number : Intercept → ℕ) (is : List Intercept) (c : Control) (b : ℕ)
    → b < 64
    → test_bit b (set_intercepts number is c).intercept
      ≡ (if is_listed number b is then 1 else test_bit b c.intercept)
unfolding set_intercepts
set_intercepts-test_bit number [] c b h = refl
set_intercepts-test_bit number (i ∷ is) c b h = ground (
  arith,
  set_intercepts-test_bit number is (set_intercept c (number i)) b,
  set_intercept-test_bit c b (number i),
)

-- After `svm_init_vmcb` a bit of the intercept word is set if it is the number of one of the 23
-- listed intercepts, and else is as it was: initialisation clears no intercept.
pub svm_init_vmcb-intercept :
    (number : Intercept → ℕ) (m : Machine) (c : Control) (b : ℕ)
    → b < 64
    → test_bit b (svm_init_vmcb number m c).intercept
      ≡ (if is_listed number b initial then 1 else test_bit b c.intercept)
unfolding svm_init_vmcb
svm_init_vmcb-intercept number m c b h =
    set_intercepts-test_bit number initial
      (record c {
        asid = m.asid;
        int_ctl = m.v_intr_masking_mask;
        nested_ctl = 0;
        nested_cr3 = 0;
        iopm_base_pa = m.io_bitmap_pa;
        msrpm_base_pa = m.msrpm_pa;
        virt_ext = 0;
        dbgctl = 0;
      })
      b h

-- Clearing an intercept clears its bit, and leaves the other 63 as they were.
pub clr_intercept-test_bit :
    (c : Control) (b n : ℕ)
    → b < 64
    → test_bit b (clr_intercept c n).intercept ≡ (if b == n then 0 else test_bit b c.intercept)
unfolding clr_intercept
clr_intercept-test_bit c b n h = ground (
  arith,
  test_bit-bit_and b c.intercept (complement (u64 (2 ^ n))),
  test_bit-complement b 64 (u64 (2 ^ n)) h (omega arith),
  single_bit b n h,
  test_bit-pow_self b,
  test_bit-pow_ne b n,
  test_bit-le b c.intercept,
)
