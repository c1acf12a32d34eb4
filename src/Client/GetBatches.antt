-- ===== src/Client/GetBatches.antt =====
-- `_run_get_batches` of src/pyhems/runtime.py: reading many EPCs of one device object.
-- The network is the argument `attempt`: what `_attempt_get_request` gives for a batch, the
-- client's state afterwards, and the capability object as other calls have left it meanwhile.
pub mod Cases
pub mod Requests
pub mod Limits
pub mod Reads
pub mod Values
pub mod Matching
pub mod Termination
pub mod Ends
use pyhems.Common.{
  ltb, leb, ◌==◌, if◌then◌else◌, is_some, length, select, is_empty, contains, Exception, ok, raised,
  ℕ_key, list_key, Dict, put, has_key, set_default, ℕ, zero, suc, ◌+◌, ◌/◌, min, Bool, true, false,
  not, ◌&&◌, ◌||◌, Option, none, some, List, [], ◌∷◌, ◌++◌,
}
use pyhems.BatchPolicy.{take_first_batch}
use pyhems.Protocol.Frame.{Property}

-- _GetCapability
pub record GetCapability : Type 0 where
  pub observed_batch_capacity : Option ℕ
  pub manufacturer_code : Option ℕ

-- The result of one request: ClientStoppedError, not sent, no response in time, another exception,
-- or a response.
pub data Attempt : Type 0 where
  stopped unsent unanswered : Attempt
  raises : Exception → Attempt
  answered : List Property → Attempt

-- How a call ends: it returns, raises GetAbortedError, ClientStoppedError, the ValueError of
-- `take_first_batch`, or the exception that a request raised.
pub data Outcome : Type 0 where
  finished aborted client_stopped invalid_capacity : Outcome
  request_raised : Exception → Outcome

-- The variables of the loop; `world` is the state of everything else.
pub record Reading (W : Type 0) : Type 0 where
  pub queue : List ℕ
  pub probe_size : Option ℕ
  pub capability : GetCapability
  pub received : Dict ℕ Property
  pub world : W

pub data Step (W : Type 0) : Type 0 where
  continue : Reading W → Step W
  leave : Outcome → Reading W → Step W

-- list(dict.fromkeys(epcs))
pub without_duplicates : List ℕ → List ℕ
without_duplicates [] = []
without_duplicates (e ∷ es) = e ∷ select (λ x. not (e == x)) (without_duplicates es)

-- The limit, the probe size, or the smaller of the two.
pub batch_size : Option ℕ → Option ℕ → Option ℕ
batch_size limit none = limit
batch_size none (some probe_size) = some probe_size
batch_size (some limit) (some probe_size) = some (min limit probe_size)

-- The first property of the response for each requested EPC.
pub match_properties : List ℕ → List Property → Dict ℕ Property → Dict ℕ Property
match_properties batch [] matched = matched
match_properties batch (p ∷ ps) matched =
    match_properties batch ps
      (if contains batch p.epc then set_default matched p.epc p else matched)

pub matched_of : List ℕ → Attempt → Dict ℕ Property
unfolding match_properties
matched_of batch (answered ps) = match_properties batch ps []
matched_of batch _ = []

-- `previous is not None and previous <= capacity`
pub keeps_previous : Option ℕ → ℕ → Bool
keeps_previous none capacity = false
keeps_previous (some previous) capacity = leb previous capacity

-- _fix_batch_capacity
pub fix_batch_capacity : GetCapability → ℕ → GetCapability
unfolding keeps_previous
fix_batch_capacity c capacity =
    if keeps_previous c.observed_batch_capacity capacity
    then c
    else record c { observed_batch_capacity = some capacity }

-- `received.update((epc, prop) for epc, prop in matched.items() if prop.edt)`
pub update_received : Dict ℕ Property → Dict ℕ Property → Dict ℕ Property
update_received received [] = received
update_received received ((epc, p) ∷ matched) =
    update_received (if is_empty p.edt then received else put received epc p) matched

unfoldable pub all_empty : Dict ℕ Property → Bool
all_empty [] = true
all_empty ((epc, p) ∷ matched) = is_empty p.edt && all_empty matched

unfoldable pub is_none {ℓ} : {A : Type ℓ} → Option A → Bool
is_none none = true
is_none (some a) = false

-- The EPCs of the batch that the response does not name.
pub omitted_epcs : List ℕ → Dict ℕ Property → List ℕ
omitted_epcs batch matched = select (λ e. not (has_key matched e)) batch

module _ {W : Type 0} where
  -- `probe_size = (n + 1) // 2; queue = batch + list(rest)`
  pub halve : List ℕ → List ℕ → Reading W → Reading W
  halve batch rest s = record s {
    queue = batch ++ rest;
    probe_size = some ((length batch + 1) / 2);
  }

  -- The device processed only some EPCs of the batch.
  pub take_partial : Bool → List ℕ → List ℕ → Dict ℕ Property → Reading W → Reading W
  unfolding fix_batch_capacity update_received omitted_epcs
  take_partial probe batch rest matched s = record s {
    queue = omitted_epcs batch matched ++ rest;
    probe_size = if probe then none else s.probe_size;
    capability = if probe then fix_batch_capacity s.capability (length matched) else s.capability;
    received = update_received s.received matched;
  }

  -- The device processed the whole batch; `learns` is the condition for fixing the limit.
  pub take_whole : Bool → List ℕ → List ℕ → Dict ℕ Property → Reading W → Reading W
  unfolding fix_batch_capacity update_received
  take_whole learns batch rest matched s = record s {
    queue = rest;
    probe_size = if learns then none else s.probe_size;
    capability = if learns then fix_batch_capacity s.capability (length batch) else s.capability;
    received = update_received s.received matched;
  }

  -- The loop's body behind the request.
  pub after_response : Bool → Option ℕ → List ℕ → List ℕ → Dict ℕ Property → Reading W → Step W
  after_response probe limit batch rest matched s =
      let n = length batch in
      if is_empty matched
      then (if not probe || n == 1 then leave aborted s else continue (halve batch rest s))
      else if ltb (length matched) n
      then continue (take_partial probe batch rest matched s)
      else if probe && all_empty matched && is_none limit && ltb 1 n
      then continue (halve batch rest s)
      else continue (
          take_whole (probe && (is_some s.probe_size || (is_none limit && ltb 1 n))) batch rest
            matched s)

  -- What follows a request, by its result.
  pub after_attempt : Bool → Option ℕ → List ℕ → List ℕ → Attempt → Reading W → Step W
  after_attempt probe limit batch rest stopped s = leave client_stopped s
  after_attempt probe limit batch rest unsent s = leave aborted s
  after_attempt probe limit batch rest (raises e) s = leave (request_raised e) s
  after_attempt probe limit batch rest unanswered s =
      after_response probe limit batch rest (matched_of batch unanswered) s
  after_attempt probe limit batch rest (answered ps) s =
      after_response probe limit batch rest (matched_of batch (answered ps)) s

module _ {W : Type 0} (attempt : W → GetCapability → List ℕ → Attempt × GetCapability × W)
    (probe : Bool) (class_code : ℕ) where
  -- A request for the batch, and what follows it.
  pub request_batch : Option ℕ → List ℕ → List ℕ → Reading W → Step W
  request_batch limit batch rest s =
      let reply = attempt s.world s.capability batch in
      after_attempt probe limit batch rest reply.0
        (record s { capability = reply.1; world = reply.2 })

  -- One round of the loop, on a queue that is not empty.
  pub batch_step : Reading W → Step W
  batch_step s =
      let limit = s.capability.observed_batch_capacity in
      elim (take_first_batch s.queue s.capability.manufacturer_code class_code
        (batch_size limit s.probe_size)) [
          | raised e ↦ leave invalid_capacity s
          | ok split ↦ request_batch limit split.0 split.1 s
        ]

  -- `while queue`, with fuel; `none` means that the fuel ran out.
  pub batch_loop : ℕ → Reading W → Option (Outcome × Reading W)
  batch_loop zero s = none
  batch_loop (suc fuel) s = elim (is_empty s.queue) [
    | true ↦ some (finished, s)
    | false ↦ elim (batch_step s) [
      | continue s' ↦ batch_loop fuel s'
      | leave outcome s' ↦ some (outcome, s')
    ]
  ]

  pub run_get_batches :
      ℕ → List ℕ → GetCapability → Dict ℕ Property → W → Option (Outcome × Reading W)
  run_get_batches fuel epcs capability received world = batch_loop fuel (record {
    queue = without_duplicates epcs;
    probe_size = none;
    capability = capability;
    received = received;
    world = world;
  })
