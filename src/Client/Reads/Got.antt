-- ===== src/Client/Reads/Got.antt =====
-- How `get` of src/pyhems/runtime.py ends.
use pyhems.Common.{
  length, ℕ_key, list_key, Dict, ℕ, ◌<◌, ◌≡◌, ◌⊎◌, Bool, false, Option, none, some, List, [], ◌∷◌,
}
use pyhems.Protocol.Frame.{Property}
use pyhems.Client.GetBatches.{
  GetCapability, Attempt, answered, Outcome, finished, aborted, client_stopped, invalid_capacity,
  request_raised,
}
use pyhems.Client.GetBatches.Matching.{Honest}
use pyhems.Client.GetBatches.Ends.{Unanswered, Raised}
use pyhems.Client.GetBatches.Limits.{IsPos}
use pyhems.Client.GetBatches.Termination.{batch_rounds}
use pyhems.Client.Reads.{
  manufacturer_epc, CodeRead, code_stopped, no_code, code_raised, code_read, code_property,
  ReadResult, properties_of, read_batches,
}
use pyhems.Client.Reads.Values.{Each, IsGiven, IsGivenOrEmpty, AllGiven}

module _ {W : Type 0} (attempt : W → GetCapability → List ℕ → Attempt × GetCapability × W)
    (class_code : ℕ) (Answered : ℕ → List ℕ → Type 0)
    (honest : (w : W) (c : GetCapability) (batch : List ℕ) → Honest Answered (attempt w c batch).0)
    (quiet : (w : W) (c : GetCapability) (batch : List ℕ) → (attempt w c batch).1 ≡ c) where
  -- The request for the manufacturer code got no response with a code.
  abbrev pub NoCode : Type 0
  NoCode =
      (w : W) × (c : GetCapability) × ((ps : List Property)
        → (attempt w c (manufacturer_epc ∷ [])).0 ≡ answered ps
        → code_property ps ≡ none)

  -- Some request of the read brought nothing.
  abbrev pub Missed : Type 0
  Missed = Unanswered attempt ⊎ NoCode

  -- The end of a read, before exceptions are caught.
  abbrev IsEnd : List ℕ → Dict ℕ Property → Outcome → Type 0
  IsEnd epcs received finished = Each (IsGiven Answered) epcs (properties_of received epcs) ⊎ Missed
  IsEnd epcs received aborted = Missed
  IsEnd epcs received client_stopped = Missed
  IsEnd epcs received invalid_capacity = ⊥
  IsEnd epcs received (request_raised e) = Raised attempt e

  record IsAddressRead (epcs : List ℕ) (o : Option (ReadResult W)) : Type 0 where
    pub result : ReadResult W
    pub returned : o ≡ some result
    pub given : AllGiven Answered result.received
    pub ends : IsEnd epcs result.received result.outcome

  module _ (fuel : ℕ) (probe : Bool) (epcs : List ℕ) (received : Dict ℕ Property)
      (c : GetCapability) (w : W) (h : batch_rounds (length epcs) < fuel) where
    abbrev reading : Option (ReadResult W)
    reading = read_batches attempt class_code fuel probe epcs received c w

  -- What the request for the code leaves: the limit as it was, and why there is no code.
  abbrev IsReply : CodeRead → GetCapability → Type 0
  IsReply (code_raised e) c = Raised attempt e
  IsReply code_stopped c = NoCode
  IsReply no_code c = NoCode
  IsReply (code_read p) c = IsPos c.observed_batch_capacity

  module _ (c : GetCapability) (w : W) where
    abbrev asked : Attempt
    asked = (attempt w c (manufacturer_epc ∷ [])).0

  -- What comes out of `get`: a list, or the exception of a request.
  abbrev pub IsGot : Bool → List ℕ → Outcome → List Property → Type 0
  IsGot reachable epcs finished ps =
      Each (IsGivenOrEmpty Answered) epcs ps
      × (Each (IsGiven Answered) epcs ps ⊎ (Missed ⊎ (reachable ≡ false)))
  IsGot reachable epcs (request_raised e) ps = Raised attempt e
  IsGot reachable epcs _ ps = ⊥
