-- ===== src/Virtio/Link/Spec.antt =====
-- What the joined device promises: a bounded stack of messages.
use virt_learn_program.Base.{
  ℕ, ◌-◌, ◌≤◌, ◌<◌, ◌^◌, Bool, true, false, leb, if◌then◌else◌, List, [], ◌∷◌, length, take, pos,
  neg, enomem, enospc,
}
use virt_learn_program.Virtio.Driver.{Bytes}
use virt_learn_program.Virtio.Link.{Command, write, read, Reply, replied}

abbrev pub Stack : Type 0
Stack = List Bytes

-- A copy to the user leaves out no more than it was asked to copy, and one from the user not all; a
-- caller's length fits 32 bits.
abbrev pub IsPossible : Command → Stack → Type 0
IsPossible (write user allocated uncopied) st = (length user < 2 ^ 32) × (uncopied < length user)
IsPossible (read allocated uncopied) [] = Unit
IsPossible (read allocated uncopied) (b ∷ st) = uncopied ≤ length b

unfoldable pub push : Bytes → Stack → Bool → Stack × Reply
push m st allocated =
    if leb 1024 (length st)
    then (st, replied (pos enospc) [])
    else if allocated
    then (m ∷ st, replied (pos (length m)) [])
    else (st, replied (pos 1) [])

unfoldable pub pop : Stack → Bool → ℕ → Stack × Reply
pop [] allocated uncopied = ([], replied (pos 0) [])
pop (b ∷ st) true uncopied = let n = length b - uncopied in (st, replied (pos n) (take n b))
pop (b ∷ st) false uncopied = (b ∷ st, replied (neg enomem) [])

unfoldable pub spec : Stack → Command → Stack × Reply
unfolding push pop
spec st (write user allocated uncopied) = push (take (length user - uncopied) user) st allocated
spec st (read allocated uncopied) = pop st allocated uncopied

unfoldable pub spec_run : Stack → List Command → Stack × List Reply
spec_run st [] = (st, [])
spec_run st (c ∷ cs) =
    let (st', r) = spec st c in let (st'', rs) = spec_run st' cs in (st'', r ∷ rs)

-- Every command of the list is possible at the stack that it meets.
abbrev pub ArePossible : List Command → Stack → Type 0
ArePossible [] st = Unit
ArePossible (c ∷ cs) st = IsPossible c st × ArePossible cs (spec st c).0
