-- ===== src/Virtio/Link/Sessions.antt =====
-- What the stack promises a caller: messages come back whole, the newest first.
use virt_learn_program.Base.{
  ℕ, zero, suc, ◌+◌, ◌≤◌, ◌<◌, ◌^◌, ◌≡◌, refl, arith, true, List, [], ◌∷◌, ◌++◌, map, length,
  length-append, replicate, take-length, pos, ok, ap, ◌∙◌,
}
use mathlib.Core.List.{reverse, reverse-append, append_assoc, append-nil}
use virt_learn_program.Virtio.Driver.{Bytes}
use virt_learn_program.Virtio.Device.{up}
use virt_learn_program.Virtio.Link.{
  System, delivers, Command, write, read, Reply, replied, run, boot,
}
use virt_learn_program.Virtio.Link.Spec.{Stack, ArePossible, spec, spec_run}
use virt_learn_program.Virtio.Link.Refine.{run-Represents, boot-Represents}

-- A `write` that copies all of `m`, and the `read`s that take `n` messages.
abbrev pub send : Bytes → Command
send m = write m true 0

abbrev pub receive : ℕ → List Command
receive n = replicate n (read true 0)

-- What the caller sees of a message that is stored, and of one that comes back.
abbrev pub sent : Bytes → Reply
sent m = replied (pos (length m)) []

abbrev pub got : Bytes → Reply
got m = replied (pos (length m)) m

abbrev pub AreSendable : List Bytes → Type 0
AreSendable [] = Unit
AreSendable (m ∷ ms) = (0 < length m) × (length m < 2 ^ 32) × AreSendable ms

spec-send : (m : Bytes) (st : Stack) → length st < 1024 → spec st (send m) ≡ (m ∷ st, sent m)
unfolding spec
spec-send m st h = ground (arith, take-length m)

spec-receive : (m : Bytes) (st : Stack) → spec (m ∷ st) (read true 0) ≡ (st, got m)
unfolding spec
spec-receive m st = ground (arith, take-length m)

reverse-cons : (m : Bytes) (ms st : List Bytes) → reverse (m ∷ ms) ++ st ≡ reverse ms ++ m ∷ st
reverse-cons m ms st =
    ap (λ (l : List Bytes). l ++ st) (reverse-append (m ∷ []) ms)
    ∙ append_assoc (reverse ms) (m ∷ []) st

length-reverse : (ms : List Bytes) → length (reverse ms) ≡ length ms
length-reverse [] = refl
length-reverse (m ∷ ms) = omega (
  arith,
  ap (length {A = Bytes}) (reverse-append (m ∷ []) ms),
  length-append (reverse ms) (m ∷ []),
  length-reverse ms,
)

spec_run_sends :
    (ms : List Bytes) (st : Stack) (cs : List Command)
    → length st + length ms ≤ 1024
    → spec_run st (map send ms ++ cs)
      ≡ ((spec_run (reverse ms ++ st) cs).0, map sent ms ++ (spec_run (reverse ms ++ st) cs).1)
unfolding spec_run
spec_run_sends [] st cs h = refl
spec_run_sends (m ∷ ms) st cs h = rw (
  spec-send m st (omega arith),
  spec_run_sends ms (m ∷ st) cs (omega arith),
  reverse-cons m ms st,
)

spec_run_receives : (st : Stack) → spec_run st (receive (length st)) ≡ ([], map got st)
unfolding spec_run
spec_run_receives [] = refl
spec_run_receives (m ∷ st) = rw (spec-receive m st, spec_run_receives st)

receive_possible : (n : ℕ) (st : Stack) → ArePossible (receive n) st
receive_possible zero st = tt
receive_possible (suc n) [] = (tt, receive_possible n (spec [] (read true 0)).0)
receive_possible (suc n) (b ∷ st) =
    (omega arith, receive_possible n (spec (b ∷ st) (read true 0)).0)

send_possible :
    (ms : List Bytes) (n : ℕ) (st : Stack)
    → AreSendable ms
    → ArePossible (map send ms ++ receive n) st
send_possible [] n st small = receive_possible n st
send_possible (m ∷ ms) n st small =
    ((small.1, small.0), send_possible ms n (spec st (send m)).0 small.2)

spec_run_session :
    (ms : List Bytes)
    → length ms ≤ 1024
    → spec_run [] (map send ms ++ receive (length ms)) ≡ ([], map sent ms ++ map got (reverse ms))
spec_run_session ms h = rw (
  spec_run_sends ms [] (receive (length ms)) (omega arith),
  append-nil (reverse ms),
  ← length-reverse ms,
  spec_run_receives (reverse ms),
)

-- On a fresh system with a transport that delivers kicks, writing up to 1024 messages of at least a
-- byte and then reading as many succeeds on every call: each `write` returns its message's length, and the `read`s return the messages whole, the newest
-- first.
pub last_in_first_out :
    (ms : List Bytes)
    → length ms ≤ 1024
    → AreSendable ms
    → (s : System) × (run delivers up boot (map send ms ++ receive (length ms))
        ≡ ok (s, map sent ms ++ map got (reverse ms)))
last_in_first_out ms h small =
    let (s, ran, rep) =
      run-Represents boot [] (map send ms ++ receive (length ms)) boot-Represents
        (send_possible ms (length ms) [] small) in
    (s, ran ∙ ap (λ (r : Stack × List Reply). ok (s, r.1)) (spec_run_session ms h))
