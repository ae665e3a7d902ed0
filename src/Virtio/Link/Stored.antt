-- ===== src/Virtio/Link/Stored.antt =====
-- How the arrays of the driver and of the device hold a stack.
use virt_learn_program.Base.{
  ℕ, ◌+◌, false, refl, ◌≤◌, ◌<◌, ◌^◌, ◌≡◌, ◌≢◌, arith, some, List, [], ◌∷◌, length, get_elem?, set,
  get_elem?-set_ne,
}
use virt_learn_program.Virtio.Driver.{Bytes, is_in}
use virt_learn_program.Virtio.Device.{Slot, live}
use virt_learn_program.Virtio.Link.{System}
use virt_learn_program.Virtio.Link.Spec.{Stack}

-- Every receive buffer that is freed is one of those that were allocated.
abbrev pub AreBelow : ℕ → List ℕ → Type 0
AreBelow n [] = Unit
AreBelow n (m ∷ ms) = (m < n) × AreBelow n ms

pub AreBelow-suc : (n : ℕ) (ms : List ℕ) → AreBelow n ms → AreBelow (n + 1) ms
AreBelow-suc n [] h = tt
AreBelow-suc n (m ∷ ms) h = (omega arith, AreBelow-suc n ms h.1)

pub AreBelow-is_in : (n : ℕ) (ms : List ℕ) → AreBelow n ms → is_in n ms ≡ false
AreBelow-is_in n [] h = refl
AreBelow-is_in n (m ∷ ms) h = ground (arith, AreBelow-is_in n ms)

-- The message at depth `d` from the bottom is slot `d` of the device, and its length is length `d`
-- of the driver.
abbrev pub IsStored : List ℕ → List Slot → Stack → Type 0
IsStored lens slots [] = Unit
IsStored lens slots (b ∷ st) =
    (get_elem? lens (length st) ≡ some (length b))
    × (get_elem? slots (length st) ≡ some (live b))
    × (0 < length b)
    × (length b < 2 ^ 32)
    × IsStored lens slots st

pub record Represents (s : System) (st : Stack) : Type 0 where
  pub lens_size : length s.driver.buf_lens ≡ 1024
  pub slots_size : length s.device.rcv_bufs ≡ 1024
  pub buffers_eq : s.driver.buffers ≡ length st
  pub count_eq : s.device.rcv_count ≡ length st
  pub fits : length st ≤ 1024
  pub heap : AreBelow s.driver.allocations s.driver.freed
  pub stored : IsStored s.driver.buf_lens s.device.rcv_bufs st
  pub spare : (i : ℕ) (b : Bytes) → length st ≤ i → get_elem? s.device.rcv_bufs i ≢ some (live b)

-- Writes at or above the top of the stack leave it stored.
pub IsStored-set_lens :
    (lens : List ℕ) (slots : List Slot) (st : Stack) (i n : ℕ)
    → length st ≤ i
    → IsStored lens slots st
    → IsStored (set lens i n) slots st
IsStored-set_lens lens slots [] i n h s = tt
IsStored-set_lens lens slots (b ∷ st) i n h s =
    ground (arith, get_elem?-set_ne lens i (length st) n, IsStored-set_lens lens slots st i n)

pub IsStored-set_slots :
    (lens : List ℕ) (slots : List Slot) (st : Stack) (i : ℕ) (s : Slot)
    → length st ≤ i
    → IsStored lens slots st
    → IsStored lens (set slots i s) st
IsStored-set_slots lens slots [] i v h s = tt
IsStored-set_slots lens slots (b ∷ st) i v h s =
    ground (arith, get_elem?-set_ne slots i (length st) v, IsStored-set_slots lens slots st i v)
