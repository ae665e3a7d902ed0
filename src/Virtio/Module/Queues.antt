-- ===== src/Virtio/Module/Queues.antt =====
-- The error path of the queue set-up.
use virt_learn_program.Base.{
  ℕ, zero, suc, ◌+◌, ◌≡◌, refl, arith, List, [], ◌∷◌, ◌++◌, pos, false, length, length-append,
}
use virt_learn_program.Virtio.Module.{QueuePtr, Kernel, is_err, find_from, custdev_find_vqs}

find_from_zero :
    (k : Kernel) (n i : ℕ) (vqs : List QueuePtr)
    → ((j : ℕ) → is_err (k.vring j) ≡ false)
    → ((find_from k n i vqs).0 ≡ pos 0) × (length (find_from k n i vqs).1 ≡ length vqs + n)
unfolding find_from
find_from_zero k zero i vqs never = (refl, omega arith)
find_from_zero k (suc n) i vqs never =
    let rest = find_from_zero k n (i + 1) (vqs ++ k.vring i ∷ []) never in
    ground (arith, never i, rest, length-append vqs (k.vring i ∷ []))

-- If queue creation signals failure by null, and never by an error pointer, then setting up any
-- number of queues reports success and fills every place, also when some of the queues are null.
pub custdev_find_vqs_succeeds :
    (k : Kernel) (nvqs : ℕ)
    → ((j : ℕ) → is_err (k.vring j) ≡ false)
    → ((custdev_find_vqs k nvqs).0 ≡ pos 0) × (length (custdev_find_vqs k nvqs).1 ≡ nvqs)
unfolding custdev_find_vqs
custdev_find_vqs_succeeds k nvqs never =
    let all = find_from_zero k nvqs 0 [] never in (all.0, omega arith)
