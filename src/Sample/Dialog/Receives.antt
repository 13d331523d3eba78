-- ===== src/Sample/Dialog/Receives.antt =====
-- What the receiving thread of the dialog does over any passes.
use si_daq_api.Base.{◌≡◌, ◌↔◌, Bool, true, false, List, [], ◌∷◌, ◌++◌, done}
use si_daq_api.Api.State.{Packets}
use si_daq_api.Sample.Dialog.Receiver.{Receiver, Pass, receiver_pass, changed}
use si_daq_api.Sample.Dialog.Takes.{Took}
use si_daq_api.Sample.Dialog.Ends.{MayEnd}

-- The events that come in, pass by pass.
abbrev pub incoming : List Pass → Packets
incoming [] = []
incoming (p ∷ passes) = p.more ++ (p.later ++ incoming passes)

-- What a run of passes leaves. If it has not ended, a further pass ends it exactly if it may end.
pub record Ran (passes : List Pass) (r : Receiver) (r' : Bool × Receiver) : Type 0 where
  pub taken : Packets
  pub arrived : Packets
  pub missed : Packets
  pub took : Took r r'.1 taken arrived
  pub all : arrived ++ missed ≡ incoming passes
  pub ended :
      r'.0 ≡ true
      → (before after : List Pass) × (p : Pass) × (passes ≡ before ++ p ∷ after)
        × MayEnd p.polls r'.1
  pub goes_on :
      r'.0 ≡ false
      → (missed ≡ [])
        × ((p : Pass)
            → (receiver_pass p.polls p.later (changed p r'.1) ≡ done (true, changed p r'.1))
              ↔ MayEnd p.polls (changed p r'.1))

abbrev pub from_zero : Receiver → Receiver
from_zero r = record r { param = record r.param { receive_bytes = 0 } }
