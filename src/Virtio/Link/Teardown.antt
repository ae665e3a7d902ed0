-- ===== src/Virtio/Link/Teardown.antt =====
-- Unplugging the device after any session frees each of its buffers once.
use virt_learn_program.Base.{
  ℕ, zero, suc, ◌+◌, ◌≤◌, ◌<◌, ◌≡◌, ◌≢◌, refl, arith, dec_lt, some, List, [], ◌∷◌, length,
  get_elem?, set, get_elem?-set_ne, get_elem?-set_self, length-set, Outcome, ok,
}
use virt_learn_program.Virtio.Driver.{Bytes}
use virt_learn_program.Virtio.Device.{Slot, live, freed, VirtIoCustdev, free_from, unrealize}
use virt_learn_program.Virtio.Link.{System}
use virt_learn_program.Virtio.Link.Spec.{Stack}
use virt_learn_program.Virtio.Link.Stored.{IsStored, Represents}

-- Every slot from `i` up to `hi` holds a buffer of its own.
abbrev AreLive : ℕ → ℕ → List Slot → Type 0
AreLive i hi slots = (j : ℕ) → i ≤ j → j < hi → (b : Bytes) × (get_elem? slots j ≡ some (live b))

-- The loop ends normally, has freed what it passed and changed nothing else.
record IsFreed (i hi : ℕ) (slots : List Slot) (result : Outcome (List Slot)) : Type 0 where
  out : List Slot
  returns : result ≡ ok out
  inside : (j : ℕ) → i ≤ j → j < hi → get_elem? out j ≡ some freed
  outside : (j : ℕ) → hi ≤ j → get_elem? out j ≡ get_elem? slots j
  below : (j : ℕ) → j < i → get_elem? out j ≡ get_elem? slots j

free_from-suc :
    (n i : ℕ) (slots : List Slot) (b : Bytes)
    → get_elem? slots i ≡ some (live b)
    → free_from (suc n) i slots ≡ free_from n (i + 1) (set slots i freed)
unfolding free_from
free_from-suc n i slots b e = rw e

free_from-IsFreed :
    (n i hi : ℕ) (slots : List Slot)
    → i + n ≡ hi
    → hi ≤ length slots
    → AreLive i hi slots
    → IsFreed i hi slots (free_from n i slots)
free_from-IsFreed zero i hi slots e le lives = record {
  out = slots;
  returns = unfold free_from in refl;
  inside = λ j p q. absurd (omega arith);
  outside = λ j p. refl;
  below = λ j p. refl;
}
free_from-IsFreed (suc n) i hi slots e le lives =
    let (b, held) = lives i (omega arith) (omega arith) in
    let slots' = set slots i freed in
    let rest =
      free_from-IsFreed n (i + 1) hi slots' (omega arith) (rw length-set le)
        (λ j p q. rw (get_elem?-set_ne slots i j freed (omega arith)) (lives j (omega arith) q)) in
    rw (free_from-suc n i slots b held) (record {
      out = rest.out;
      returns = rest.returns;
      inside =
          λ j p q. ground (arith, rest.inside j, rest.below j, get_elem?-set_self slots i freed);
      outside = λ j p. ground (arith, rest.outside j, get_elem?-set_ne slots i j freed);
      below = λ j p. ground (arith, rest.below j, get_elem?-set_ne slots i j freed);
    })

stored-AreLive :
    (lens : List ℕ) (slots : List Slot) (st : Stack)
    → IsStored lens slots st
    → AreLive 0 (length st) slots
stored-AreLive lens slots [] s j p q = absurd (omega arith)
stored-AreLive lens slots (b ∷ st) s j p q = elim (dec_lt j (length st)) [
  | yes lower ↦ stored-AreLive lens slots st s.4 j p lower
  | no top ↦ let e : j ≡ length st = omega arith in (b, rw e s.1)
]

-- A device that holds a stack is unplugged without a double free, and no buffer is left behind.
pub unrealize-frees_all :
    (s : System) (st : Stack)
    → Represents s st
    → (d : VirtIoCustdev) × (unrealize s.device ≡ ok d)
      × ((j : ℕ) (b : Bytes) → get_elem? d.rcv_bufs j ≢ some (live b))
unfolding unrealize
unrealize-frees_all s st rep =
    let n = s.device.rcv_count in
    let slots = s.device.rcv_bufs in
    let loop : IsFreed 0 n slots (free_from n 0 slots) =
      free_from-IsFreed n 0 n slots (omega arith) (omega arith)
        (rw rep.count_eq (stored-AreLive s.driver.buf_lens slots st rep.stored)) in
    (
      record s.device { rcv_bufs = loop.out },
      rw loop.returns,
      λ j b e. elim (dec_lt j n) [
        | yes in_use ↦ ground (arith, loop.inside j)
        | no spare ↦ ground (arith, loop.outside j, rep.spare j b)
      ],
    )
