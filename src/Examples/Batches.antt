-- ===== src/Examples/Batches.antt =====
-- Batches of EPCs at concrete inputs (src/pyhems/get_batch_policy.py, src/pyhems/runtime.py).
use pyhems.Common.{
  length, All, contains, intersection, difference, value_error, ok, raised, ℕ_key, list_key, ℕ, ◌+◌,
  ◌<◌, ◌≡◌, refl, ◌⊎◌, true, Option, none, some, List, [], ◌∷◌, arith,
}
use pyhems.BatchPolicy.{batch_capacity, take_first_batch, get_get_batch_policy}
use pyhems.BatchPolicy.Progress.{IsBatch, take_first_batch_lem}
use pyhems.Client.GetBatches.{
  GetCapability, Attempt, unanswered, answered, Outcome, Reading, run_get_batches,
}
use pyhems.Client.GetBatches.Matching.{Honest}
use pyhems.Client.GetBatches.Reads.{IsReadResult, run_get_batches-IsReadResult}
use pyhems.Client.GetBatches.Limits.{IsLimitResult, run_get_batches-IsLimitResult}
use pyhems.Client.GetBatches.Requests.{run_get_batches-keeps}

-- The two EPCs that a smart meter of maker 0x0B must not be asked together.
abbrev meter_epcs : List ℕ
meter_epcs = 0xB3 ∷ 0xC0 ∷ 0xB7 ∷ []

take_first_batch_test :
    take_first_batch meter_epcs (some 0x0B) 0x0287 none ≡ ok (0xB3 ∷ 0xC0 ∷ [], 0xB7 ∷ [])
unfolding take_first_batch get_get_batch_policy batch_capacity contains intersection difference
take_first_batch_test = refl

take_first_batch_lem_example :
    ((Path (Option ℕ) (some 2) (some 0))
      × (take_first_batch meter_epcs (some 0x0B) 0x0287 (some 2) ≡ raised value_error))
    ⊎ ((batch : List ℕ) × (remaining : List ℕ) × (take_first_batch meter_epcs
            (some 0x0B)
            0x0287
            (some 2)
          ≡ ok (batch, remaining))
        × IsBatch meter_epcs (get_get_batch_policy (some 0x0B) 0x0287) (some 2) batch remaining)
take_first_batch_lem_example = take_first_batch_lem meter_epcs (some 0x0B) 0x0287 (some 2)

-- A device that answers no request for more than one EPC, and the EPC itself as its value.
abbrev answer_of : List ℕ → Attempt
answer_of (e ∷ []) = answered (record { epc = e; edt = e ∷ [] } ∷ [])
answer_of _ = unanswered

-- The world counts the requests.
abbrev slow_device : ℕ → GetCapability → List ℕ → Attempt × GetCapability × ℕ
slow_device n c batch = (answer_of batch, c, n + 1)

abbrev unknown_capability : GetCapability
unknown_capability = record { observed_batch_capacity = none; manufacturer_code = none }

-- The values that the device has.
abbrev Values : ℕ → List ℕ → Type 0
Values e edt = edt ≡ e ∷ []

answer_of-Honest : (batch : List ℕ) → Honest Values (answer_of batch)
answer_of-Honest [] = tt
answer_of-Honest (e ∷ []) = (refl, tt)
answer_of-Honest (e ∷ d ∷ es) = tt

run_get_batches-IsReadResult_example :
    (outcome : Outcome) × (s : Reading ℕ) × (run_get_batches slow_device true 0x0130 40
        (0x80 ∷ 0xB0 ∷ 0x80 ∷ [])
        unknown_capability
        []
        0
      ≡ some (outcome, s))
    × IsReadResult Values (0x80 ∷ 0xB0 ∷ 0x80 ∷ []) [] outcome s
run_get_batches-IsReadResult_example =
    run_get_batches-IsReadResult slow_device true 0x0130 Values
      (λ w c batch. answer_of-Honest batch) (0x80 ∷ 0xB0 ∷ 0x80 ∷ []) [] 40 unknown_capability 0
      (omega arith)

run_get_batches-IsLimitResult_example :
    (outcome : Outcome) × (s : Reading ℕ) × (run_get_batches slow_device true 0x0130 40
        (0x80 ∷ 0xB0 ∷ 0xB3 ∷ [])
        unknown_capability
        []
        0
      ≡ some (outcome, s))
    × IsLimitResult true unknown_capability outcome s
run_get_batches-IsLimitResult_example =
    run_get_batches-IsLimitResult slow_device (λ w c batch. refl) true 0x0130 unknown_capability 40
      (0x80 ∷ 0xB0 ∷ 0xB3 ∷ []) [] 0 (omega arith) tt

-- A device that keeps the requests that it got.
abbrev recorder : List (List ℕ) → GetCapability → List ℕ → Attempt × GetCapability × List (List ℕ)
recorder log c batch = (answer_of batch, c, batch ∷ log)

run_get_batches-keeps_example :
    (outcome : Outcome) × (s : Reading (List (List ℕ))) × (run_get_batches recorder true 0x0287 40
        meter_epcs unknown_capability [] []
      ≡ some (outcome, s))
    × All (λ batch. 0 < length batch) s.world
run_get_batches-keeps_example =
    run_get_batches-keeps recorder true 0x0287 meter_epcs (All (λ batch. 0 < length batch))
      (λ log c batch allowed all. (allowed.some_epc, all)) 40 unknown_capability [] [] (omega arith)
      tt
