-- ===== src/Client/Reads/Returns.antt =====
-- How `setup_get` of src/pyhems/runtime.py ends.
use pyhems.Protocol.Frame.{Property}
use pyhems.Client.GetBatches.{
  GetCapability, Attempt, Outcome, finished, aborted, client_stopped, invalid_capacity,
  request_raised, Reading, is_none,
}
use pyhems.Client.GetBatches.Matching.{Honest}
use pyhems.Client.GetBatches.Values.{IsValue, HasValues}
use pyhems.Client.GetBatches.Reads.{IsReadResult, run_get_batches-IsReadResult}
use pyhems.Client.GetBatches.Termination.{batch_rounds, batch_rounds_mono}
use pyhems.Client.Reads.{
  manufacturer_epc, CodeRead, code_stopped, no_code, code_raised, code_read, ReadResult,
  unread_epcs, properties_of, request_code, result_of, read_batches, ended, after_setup_code,
  setup_get,
}
use pyhems.Common.{
  Bool-cases, length, select, length-select, contains, contains-select, ℕ_key, list_key, Dict,
  has_key, ℕ, ◌<◌, ◌≡◌, refl, subst, ◌≢◌, ◌⊎◌, inl, inr, Bool, true, false, not, Option, some, List,
  [], ◌∷◌, arith,
}
use pyhems.Client.Reads.Values.{
  Each, Each-properties_of, IsGiven, AllGiven, property_of-IsGiven, HasCode, after_code-HasCode,
  AllGiven-code, AllGiven-nil,
}

module _ {W : Type 0} (attempt : W → GetCapability → List ℕ → Attempt × GetCapability × W)
    (class_code : ℕ) (Answered : ℕ → List ℕ → Type 0)
    (honest : (w : W) (c : GetCapability) (batch : List ℕ)
      → Honest Answered (attempt w c batch).0) where
  -- A read that has ended: its values are the device's, and after a return there is one for each
  -- EPC, or an empty answer.
  pub record IsRun (epcs : List ℕ) (o : Option (ReadResult W)) : Type 0 where
    pub result : ReadResult W
    pub returned : o ≡ some result
    pub given : AllGiven Answered result.received
    pub complete :
        result.outcome ≡ finished
        → (e : ℕ) → contains epcs e ≡ true
        → (has_key result.received e ≡ true) ⊎ Answered e []

  ended-IsRun :
      (epcs : List ℕ) (o : Outcome) (c : GetCapability) (w : W)
      → o ≢ finished
      → IsRun epcs (ended o c w)
  unfolding ended
  ended-IsRun epcs o c w other = record {
    result = record { outcome = o; received = []; capability = c; world = w };
    returned = refl;
    given = AllGiven-nil Answered;
    complete = λ e. absurd (other e);
  }

  pub read_batches-IsRun :
      (fuel : ℕ) (probe : Bool) (epcs : List ℕ) (received : Dict ℕ Property) (c : GetCapability)
      (w : W)
      → batch_rounds (length epcs) < fuel
      → AllGiven Answered received
      → IsRun epcs (read_batches attempt class_code fuel probe epcs received c w)
  unfolding read_batches result_of unread_epcs
  read_batches-IsRun fuel probe epcs received c w h good =
      let left = select (λ e. not (has_key received e)) epcs in
      let (o, s, e, r) =
        run_get_batches-IsReadResult attempt probe class_code Answered honest left received fuel c w
          (omega (
            arith,
            batch_rounds_mono (length left) (length epcs)
                (length-select (λ e. not (has_key received e)) epcs),
          )) in
      record {
        result = record {
          outcome = o;
          received = s.received;
          capability = s.capability;
          world = s.world;
        };
        returned = rw e refl;
        given = λ x p found. from_value x p (values_of s o r x p found);
        complete = λ done x m.
            from_read s x m (subst (λ t. IsReadResult Answered left received t s) done r);
      }
    where
      left_of : List ℕ
      left_of = select (λ e. not (has_key received e)) epcs

      values_of :
          (s : Reading W) (o : Outcome)
          → IsReadResult Answered left_of received o s
          → HasValues Answered left_of received s.received
      values_of s finished r = r.0
      values_of s aborted r = r
      values_of s client_stopped r = r
      values_of s invalid_capacity r = r
      values_of s (request_raised e) r = r

      from_value :
          (x : ℕ) (p : Property) → IsValue Answered left_of received x p → IsGiven Answered x p
      from_value x p (inl old) = good x p old
      from_value x p (inr new) = (new.0, new.3)

      from_read :
          (s : Reading W) (x : ℕ)
          → contains epcs x ≡ true
          → IsReadResult Answered left_of received finished s
          → (has_key s.received x ≡ true) ⊎ Answered x []
      from_read s x m r = elim (Bool-cases (has_key received x)) [
        | inl old ↦ inl (r.2 x old)
        | inr new ↦
            r.1 x (ground (arith, contains-select (λ e. not (has_key received e)) epcs x, new, m))
      ]

  abbrev pub HasReply : CodeRead × GetCapability × W → Type 0
  HasReply r = HasCode Answered r.0

  pub request_code-HasReply :
      (c : GetCapability) (w : W) → HasReply (request_code attempt class_code c w)
  unfolding request_code
  request_code-HasReply c w =
      after_code-HasCode Answered (attempt w c (manufacturer_epc ∷ [])).0 _ (honest w c _)

  after_setup_code-IsRun :
      (fuel : ℕ) (epcs : List ℕ) (r : CodeRead × GetCapability × W)
      → batch_rounds (length epcs) < fuel
      → HasReply r
      → IsRun epcs (after_setup_code attempt class_code fuel epcs r)
  unfolding after_setup_code
  after_setup_code-IsRun fuel epcs (code_stopped, c, w) h k =
      ended-IsRun epcs client_stopped c w (λ e. cc)
  after_setup_code-IsRun fuel epcs (code_raised e, c, w) h k =
      ended-IsRun epcs (request_raised e) c w (λ e. cc)
  after_setup_code-IsRun fuel epcs (no_code, c, w) h k = ended-IsRun epcs aborted c w (λ e. cc)
  after_setup_code-IsRun fuel epcs (code_read p, c, w) h k =
      read_batches-IsRun fuel true epcs _ c w h (AllGiven-code Answered p k)

  setup_get-IsRun :
      (fuel : ℕ) (reachable : Bool) (epcs : List ℕ) (c : GetCapability) (w : W)
      → batch_rounds (length epcs) < fuel
      → IsRun epcs (setup_get attempt class_code fuel reachable epcs c w)
  unfolding setup_get
  setup_get-IsRun fuel false epcs c w h = ended-IsRun epcs aborted c w (λ e. cc)
  setup_get-IsRun fuel true epcs c w h = elim (Bool-cases (is_none c.manufacturer_code)) [
    | inl unknown ↦ rw unknown (after_setup_code-IsRun fuel epcs _ h (request_code-HasReply c w))
    | inr known ↦ rw known (read_batches-IsRun fuel true epcs [] c w h (AllGiven-nil Answered))
  ]

  -- Whatever the device and the other calls do, `setup_get` ends; when it returns, it hands over
  -- one property for each requested EPC, in their order, with a value that the device gave for it.
  pub setup_get-Each :
      (fuel : ℕ) (reachable : Bool) (epcs : List ℕ) (c : GetCapability) (w : W)
      → batch_rounds (length epcs) < fuel
      → (r : ReadResult W) × (setup_get attempt class_code fuel reachable epcs c w ≡ some r)
        × (r.outcome ≡ finished → Each (IsGiven Answered) epcs (properties_of r.received epcs))
  setup_get-Each fuel reachable epcs c w h =
      let run = setup_get-IsRun fuel reachable epcs c w h in
      (
        run.result,
        run.returned,
        λ done. Each-properties_of (IsGiven Answered) run.result.received epcs (λ e m.
            property_of-IsGiven Answered run.result.received e run.given (run.complete done e m)),
      )
