-- ===== src/Vmx/Gdt/Tss.antt =====
-- vmx_mod/vmx.c: `reload_tss`, which makes the descriptor of the host's task available before it is
-- loaded again.
use virt_learn_program.Base.{
  ℕ, ◌+◌, ◌-◌, ◌*◌, ◌/◌, ◌%◌, ◌^◌, ◌<◌, ◌≡◌, Option, none, some, List, set, get_elem?, length,
  get_elem?-set_self, ap, arith,
}

-- The four bits of a descriptor's type.
abbrev pub type_of : ℕ → ℕ
type_of d = d / 2 ^ 40 % 16

abbrev pub with_type : ℕ → ℕ → ℕ
with_type d t = d - type_of d * 2 ^ 40 + t * 2 ^ 40

-- `reload_tss` on the words of the table, of which `tss` is the task's; 9 is an available task. The
-- task register is then loaded by the kernel.
unfoldable pub reload_tss : ℕ → List ℕ → List ℕ
reload_tss tss gdt = elim (get_elem? gdt tss) [ none ↦ gdt | some d ↦ set gdt tss (with_type d 9) ]

type_of-with_type : (d t : ℕ) → t < 16 → type_of (with_type d t) ≡ t
type_of-with_type d t h = omega arith

reload_tss-eq :
    (tss : ℕ) (gdt : List ℕ) (d : ℕ)
    → get_elem? gdt tss ≡ some d
    → reload_tss tss gdt ≡ set gdt tss (with_type d 9)
unfolding reload_tss
reload_tss-eq tss gdt d e =
    ap (λ (o : Option ℕ). elim o [ none ↦ gdt | some x ↦ set gdt tss (with_type x 9) ]) e

-- The task's descriptor is then of an available task, and its bits below and above the type are as
-- they were.
pub reload_tss-type :
    (tss : ℕ) (gdt : List ℕ) (d : ℕ)
    → tss < length gdt
    → get_elem? gdt tss ≡ some d
    → (d' : ℕ) × (get_elem? (reload_tss tss gdt) tss ≡ some d')
      × (type_of d' ≡ 9)
      × (d' % 2 ^ 40 ≡ d % 2 ^ 40)
      × (d' / 2 ^ 44 ≡ d / 2 ^ 44)
reload_tss-type tss gdt d h e = (
  with_type d 9,
  rw (reload_tss-eq tss gdt d e) (get_elem?-set_self gdt tss (with_type d 9) h),
  type_of-with_type d 9 (omega arith),
  omega arith,
  omega arith,
)
