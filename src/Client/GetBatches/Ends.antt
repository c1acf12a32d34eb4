-- ===== src/Client/GetBatches/Ends.antt =====
-- Why `_run_get_batches` (src/pyhems/runtime.py) ends without a return.
use pyhems.Common.{
  length, is_empty, Exception, ℕ_key, list_key, Dict, ℕ, ◌<◌, ◌≡◌, refl, Bool, true, false, some,
  List, arith,
}
use pyhems.Protocol.Frame.{Property}
use pyhems.Client.GetBatches.{
  GetCapability, Attempt, raises, Outcome, finished, aborted, client_stopped, invalid_capacity,
  request_raised, Reading, Step, matched_of, without_duplicates, request_batch, batch_step,
  run_get_batches,
}
use pyhems.Client.GetBatches.Cases.{after_response-cases, after_attempt-cases, batch_step-cases}
use pyhems.Client.GetBatches.Termination.{batch_rounds, batch_rounds_mono, Keeps, batch_loop_rule}
use pyhems.Client.GetBatches.Reads.{length-without_duplicates}

module _ {W : Type 0} (attempt : W → GetCapability → List ℕ → Attempt × GetCapability × W) where
  -- Some request gave no value for an EPC that it asked for.
  abbrev pub Unanswered : Type 0
  Unanswered =
      (w : W) × (c : GetCapability) × (batch : List ℕ) × (is_empty
          (matched_of batch (attempt w c batch).0)
        ≡ true)

  -- Some request raised the exception.
  abbrev pub Raised : Exception → Type 0
  Raised e = (w : W) × (c : GetCapability) × (batch : List ℕ) × ((attempt w c batch).0 ≡ raises e)

  abbrev pub IsExplained : Outcome → Type 0
  IsExplained finished = Unit
  IsExplained invalid_capacity = Unit
  IsExplained aborted = Unanswered
  IsExplained client_stopped = Unanswered
  IsExplained (request_raised e) = Raised e

  module _ (probe : Bool) (class_code : ℕ) where
    abbrev Explains : Step W → Type 0
    Explains = Keeps attempt probe class_code (λ _. Unit) (λ o _. IsExplained o)

    batch_step-Explains :
        (s : Reading W)
        → is_empty s.queue ≡ false
        → Explains (batch_step attempt probe class_code s)
    unfolding request_batch matched_of
    batch_step-Explains s more =
        batch_step-cases Explains attempt probe class_code s more (λ _. tt)
          λ batch rest p.
            let reply = attempt s.world s.capability batch in
            let s' = record s { capability = reply.1; world = reply.2 } in
            after_attempt-cases Explains probe _ batch rest s' p.some_epc reply.0
              (λ e. (s.world, s.capability, batch, rw e refl))
              (λ e. (s.world, s.capability, batch, rw e refl))
              (λ x e. (s.world, s.capability, batch, e))
              (after_response-cases Explains probe _ batch rest s' p.some_epc
                (matched_of batch reply.0)
                (λ none_matched _. (s.world, s.capability, batch, none_matched)) (λ _ _. tt)
                (λ _ _. tt) (λ _ _. tt))

    pub run_get_batches-IsExplained :
        (fuel : ℕ) (epcs : List ℕ) (capability : GetCapability) (received : Dict ℕ Property)
        (world : W)
        → batch_rounds (length epcs) < fuel
        → (outcome : Outcome) × (s : Reading W) × (run_get_batches attempt probe class_code fuel
              epcs capability received world
            ≡ some (outcome, s))
          × IsExplained outcome
    unfolding run_get_batches
    run_get_batches-IsExplained fuel epcs capability received world h =
        batch_loop_rule attempt probe class_code (λ _. Unit) (λ o _. IsExplained o)
          (λ s more _. batch_step-Explains s more) (λ _ _ _. tt) fuel _
          (omega (
            arith,
            batch_rounds_mono (length (without_duplicates epcs)) (length epcs)
                (length-without_duplicates epcs),
          ))
          tt
