-- ===== src/Virtio/Orders/Steps.antt =====
-- Every step, and any order of steps, keeps the two counts in agreement.
use virt_learn_program.Base.{
  use_after_free, leb, if◌then◌else◌, false, refl, ◌>>=◌, ◌==◌, fault, [], Outcome, Bool-cases, inr,
  inl, ◌∷◌, ◌≡◌, List, Bool, ℕ, ok, arith, true,
}
use virt_learn_program.Virtio.Driver
use virt_learn_program.Virtio.Driver.{VirtioCustomDevice, Bytes, is_in}
use virt_learn_program.Virtio.Device
use virt_learn_program.Virtio.Device.{up, popped_out, popped_in}
use virt_learn_program.Virtio.Orders.{
  Halves, Action, writes, stores, submits, fills, receives, finishes, store_next, fill_next,
  receive_next, reclaims, reclaim_next, post, finish, act, acts,
}
use virt_learn_program.Virtio.Orders.Kept.{
  IsCounted, write-IsCounted, store-IsCounted, fill-IsCounted, receive-IsCounted, finish-IsCounted,
  submit-IsCounted,
}

-- A step that ends normally keeps the counts.
abbrev pub Keeps : Outcome Halves → Type 0
Keeps (ok s) = IsCounted s
Keeps (fault f) = Unit

>>=-Keeps :
    {A : Type 0} (o : Outcome A) (next : A → Halves)
    → ((x : A) → o ≡ ok x → IsCounted (next x))
    → Keeps (o >>= λ x. ok (next x))
>>=-Keeps (ok x) next h = h x refl
>>=-Keeps (fault f) next h = tt

store_next-Keeps : (s : Halves) (q : List Bytes) → IsCounted s → s.tx ≡ q → Keeps (store_next s q)
unfolding store_next
store_next-Keeps s [] c queue = c
store_next-Keeps s (m ∷ tx) c queue =
    >>=-Keeps (Device.handle_outbuf up s.device (popped_out m)) _
      λ d e. store-IsCounted s (popped_out m) m tx d c queue e

fill_next-Keeps : (s : Halves) (q : List (ℕ × ℕ)) → IsCounted s → Keeps (fill_next s q)
unfolding fill_next
fill_next-Keeps s [] c = c
fill_next-Keeps s ((rcv_buf, n) ∷ rx) c = elim (Bool-cases (is_in rcv_buf s.driver.freed)) [
  | inl gone ↦ rw (Keeps, gone) (stops (Device.handle_inbuf up s.device (popped_in n)))
  | inr still ↦
      rw (Keeps, still)
        (>>=-Keeps (Device.handle_inbuf up s.device (popped_in n)) _
          λ r e. fill-IsCounted s (popped_in n) rcv_buf rx r c e)
]
  where
    stops : (o : Outcome Device.InDone) → Keeps (o >>= λ r. fault use_after_free)
    stops (ok r) = tt
    stops (fault f) = tt

receive_next-IsCounted :
    (s : Halves) (q : List (ℕ × Bytes)) → IsCounted s → s.filled ≡ q → IsCounted (receive_next s q)
unfolding receive_next
receive_next-IsCounted s [] c queue = c
receive_next-IsCounted s (b ∷ filled) c queue = receive-IsCounted s b filled c queue

post-IsCounted : (s : Halves) (r : Driver.ReadStart) → IsCounted s → IsCounted (post s r)
unfolding post
post-IsCounted s (Driver.returned r) c = c
post-IsCounted s (Driver.posted rcv_buf n) c = record {
  lens_size = c.lens_size;
  slots_size = c.slots_size;
  total = c.total;
  fits = c.fits;
  owners = c.owners;
  ring = c.ring;
}

reclaim_next-Keeps : (s : Halves) → IsCounted s → Keeps (reclaim_next s)
unfolding reclaim_next
reclaim_next-Keeps s c = elim (Bool-cases (s.used == 0)) [
  | inl none_used ↦ rw (Keeps, none_used) c
  | inr used ↦
      let held : (s.owned == 0) ≡ false = ground (arith, c, used) in
      rw (Keeps, used, held)
        (record {
          lens_size = c.lens_size;
          slots_size = c.slots_size;
          total = c.total;
          fits = c.fits;
          owners = ground (arith, c, used);
          ring = ground (arith, c, used);
        })
]

if-Keeps :
    (b : Bool) (s : Halves) (o : Outcome Halves)
    → IsCounted s
    → Keeps o
    → Keeps (if b then ok s else o)
if-Keeps true s o c kept = c
if-Keeps false s o c kept = kept

finish-Keeps : (s : Halves) (rcv_buf uncopied : ℕ) → IsCounted s → Keeps (finish s rcv_buf uncopied)
unfolding finish
finish-Keeps s rcv_buf uncopied c = if-Keeps (leb s.driver.allocations rcv_buf) s _ c (
    if-Keeps (is_in rcv_buf s.driver.freed) s _ c (
      if-Keeps (s.driver.data_ready == 0) s _ c (
        >>=-Keeps (Driver.read_finish s.driver rcv_buf uncopied) _
          λ r e. finish-IsCounted s rcv_buf uncopied r c e)))

pub act-Keeps : (s : Halves) (a : Action) → IsCounted s → Keeps (act s a)
unfolding act
act-Keeps s (writes user allocated uncopied) c =
    >>=-Keeps (Driver.write s.driver user allocated uncopied) _
      λ w e. write-IsCounted s user allocated uncopied w c e
act-Keeps s stores c = store_next-Keeps s s.tx c refl
act-Keeps s (submits allocated) c = >>=-Keeps (Driver.read_submit s.driver allocated) _ λ r e.
    post-IsCounted (record s { driver = r.device }) r.start (submit-IsCounted s allocated r c e)
act-Keeps s fills c = fill_next-Keeps s s.rx c
act-Keeps s receives c = receive_next-IsCounted s s.filled c refl
act-Keeps s reclaims c = reclaim_next-Keeps s c
act-Keeps s (finishes rcv_buf uncopied) c = finish-Keeps s rcv_buf uncopied c

then-Keeps :
    (o : Outcome Halves) (next : Halves → Outcome Halves)
    → Keeps o
    → ((t : Halves) → IsCounted t → Keeps (next t))
    → Keeps (o >>= next)
then-Keeps (ok t) next kept later = later t kept
then-Keeps (fault f) next kept later = tt

pub acts-Keeps : (order : List Action) (s : Halves) → IsCounted s → Keeps (acts s order)
unfolding acts
acts-Keeps [] s c = c
acts-Keeps (a ∷ rest) s c =
    then-Keeps (act s a) (λ t. acts t rest) (act-Keeps s a c) λ t kept. acts-Keeps rest t kept
