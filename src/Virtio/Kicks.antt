-- ===== src/Virtio/Kicks.antt =====
-- The two halves with kicks that merge, on a transport that delivers kicks: a kick of the transmit
-- queue is a flag, which the device's handler clears, and which several writes may have raised.
pub mod Stuck
mod Examples
use virt_learn_program.Base.{
  ℕ, zero, suc, ◌+◌, ltb, Bool, true, false, if◌then◌else◌, ◌||◌, some, List, [], ◌∷◌, length,
  replicate, Outcome, ok, fault, ◌>>=◌, ◌≡◌, refl, ap, ◌∙◌,
}
use virt_learn_program.Virtio.Driver.{Bytes}
use virt_learn_program.Virtio.Device
use virt_learn_program.Virtio.Orders.{
  Halves, Action, writes, stores, submits, fills, receives, reclaims, finishes, act, fresh,
}

pub record Kicked : Type 0 where
  pub halves : Halves
  pub raised : Bool

-- A `write` that adds a message raises the flag; the handler runs only for a raised flag.
unfoldable pub kick_step : Kicked → Action → Outcome Kicked
kick_step k (writes user allocated uncopied) = do
  s ← act k.halves (writes user allocated uncopied)
  ok (record { halves = s; raised = k.raised || ltb (length k.halves.tx) (length s.tx) })
kick_step k stores =
    if k.raised
    then (act k.halves stores >>= λ s. ok (record { halves = s; raised = false }))
    else ok k
kick_step k a = do s ← act k.halves a; ok (record k { halves = s })

unfoldable pub kick_steps : Kicked → List Action → Outcome Kicked
kick_steps k [] = ok k
kick_steps k (a ∷ rest) = do k' ← kick_step k a; kick_steps k' rest

abbrev pub unkicked : Kicked
unkicked = record { halves = fresh; raised = false }
