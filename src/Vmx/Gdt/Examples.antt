-- ===== src/Vmx/Gdt/Examples.antt =====
-- The descriptors of the table on concrete inputs.
use virt_learn_program.Base.{true, false, ◌/◌, ◌≡◌, refl, some, get_elem?, map}
use virt_learn_program.Vmx.Gdt.{seg64, gdt_template}
use virt_learn_program.Vmx.Gdt.Decode.{decode, flags, flat, seg64-decode}

seg64-decode_run : decode (seg64 (flags true false true) 7) ≡ flat true false true 3
seg64-decode_run = seg64-decode true false true 7

-- The entries of the selectors 0x10 and 0x2b: code of level 0, and data of level 3.
kernel_code : get_elem? (map decode gdt_template) (0x10 / 8) ≡ some (flat true false true 0)
unfolding gdt_template seg64
kernel_code = refl

user_data : get_elem? (map decode gdt_template) (0x2b / 8) ≡ some (flat false false true 3)
unfolding gdt_template seg64
user_data = refl
