-- ===== src/Client/Reads.antt =====
-- The reads that src/pyhems/runtime.py offers, around `_run_get_batches`: `get`, `setup_get`,
-- `read_manufacturer_code` and `request_get`. Whether the node has an address and the client is
-- started is `reachable`; `attempt` is the network, as for the batches. The capability of the
-- device object is what `_get_capabilities` holds for it, or a new one.
pub mod Values
pub mod Returns
pub mod Got
use pyhems.BatchPolicy.{has_get_batch_policy_for_class}
use pyhems.Protocol.Frame.{Property}
use pyhems.Client.GetBatches.{
  GetCapability, Attempt, stopped, unsent, unanswered, raises, answered, Outcome, finished, aborted,
  client_stopped, invalid_capacity, request_raised, Reading, run_get_batches, is_none,
}
use pyhems.Common.{
  ltb, leb, ◌==◌, if◌then◌else◌, ltb→lt, lt→ltb, leb→le, ==_iff, &&_left, &&_right, Bool-cases,
  Option-cases, is_some, ltb-eq-false, some_inj, length, take, drop, select, is_empty, get_elem?,
  length-append, take-append-drop, take-append, drop-append, length-take_of_le, length-select, All,
  All-append, All-take, All-drop, All-map, contains, intersection, difference, union, contains-nil,
  contains-cons, contains-append, contains-select, contains-intersection, contains-difference,
  contains-union, set_laws, contains-is_empty, AllBytes, int_from_bytes, digits_be, int_to_bytes,
  int_from_bytes-digits_be, digits_be-int_from_bytes, int_from_bytes-lt, digits_be-AllBytes,
  length-digits_be, int_to_bytes-eq-ok, DecodeFault, too_short, invalid_header, unknown_esv,
  incomplete_header, incomplete_data, Exception, value_error, overflow_error, lookup_error,
  type_error, runtime_error, recursion_error, frame_decode_error, Result, ok, raised, ◌>>=◌, ok_inj,
  bind_ok, contains-Permᴰ, length-Perm, contains-Perm, contains-length, Key, ℕ_key, same_list,
  same_list_iff, list_key, same_refl, Dict, find, put, remove, has_key, set_default, find-put,
  find-remove, find-set_default, length-put, length-put_old, length-remove, Distinct, Distinct-prop,
  Distinct-Perm, Distinct-left, Distinct-right, Distinct-select, length-select_lt,
  length-le_of_Distinct, contains_of_length, ℕ, zero, suc, ◌+◌, ◌-◌, ◌*◌, ◌/◌, ◌%◌, ◌^◌, ◌≤◌, ◌<◌,
  min, ◌≡◌, refl, sym, ap, ◌∙◌, subst, ◌≡⟨◌⟩◌, ◌∎, ◌≢◌, ◌↔◌, ◌⊎◌, inl, inr, Bool, true, false, not,
  ◌&&◌, ◌||◌, Option, none, some, List, [], ◌∷◌, ◌++◌, map, append_assoc, append-nil, arith,
}

-- EPC.MANUFACTURER_CODE
abbrev pub manufacturer_epc : ℕ
manufacturer_epc = 0x8A

-- What a read of the manufacturer code gives: ClientStoppedError, None, another exception, or the
-- property.
pub data CodeRead : Type 0 where
  code_stopped no_code : CodeRead
  code_raised : Exception → CodeRead
  code_read : Property → CodeRead

-- How a read ends, and what it has read by then.
pub record ReadResult (W : Type 0) : Type 0 where
  pub outcome : Outcome
  pub received : Dict ℕ Property
  pub capability : GetCapability
  pub world : W

-- The first property with the code, of three bytes at least.
pub code_property : List Property → Option Property
code_property [] = none
code_property (p ∷ ps) =
    if p.epc == manufacturer_epc && leb 3 (length p.edt) then some p else code_property ps

with_code : Option Property → GetCapability → CodeRead × GetCapability
unfolding int_from_bytes
with_code none c = (no_code, c)
with_code (some p) c =
    (code_read p, record c { manufacturer_code = some (int_from_bytes (take 3 p.edt)) })

pub after_code : Attempt → GetCapability → CodeRead × GetCapability
unfolding with_code code_property
after_code stopped c = (code_stopped, c)
after_code unsent c = (no_code, c)
after_code unanswered c = (no_code, c)
after_code (raises e) c = (code_raised e, c)
after_code (answered ps) c = with_code (code_property ps) c

-- [epc for epc in epcs if epc not in received]
pub unread_epcs : List ℕ → Dict ℕ Property → List ℕ
unread_epcs epcs received = select (λ e. not (has_key received e)) epcs

-- received.get(epc, Property(epc=epc, edt=b""))
pub property_of : Dict ℕ Property → ℕ → Property
unfolding find
property_of received epc = elim (find received epc) [
  | none ↦ record { epc = epc; edt = [] }
  | some p ↦ p
]

-- The property for each requested EPC.
pub properties_of : Dict ℕ Property → List ℕ → List Property
unfolding property_of
properties_of received epcs = map (λ e. property_of received e) epcs

-- GetAbortedError and ClientStoppedError are caught.
pub caught : Outcome → Outcome
caught aborted = finished
caught client_stopped = finished
caught o = o

-- The properties of a response; ClientStoppedError is caught.
response_of : Attempt → Result (Option (List Property))
response_of (answered ps) = ok (some ps)
response_of (raises e) = raised e
response_of _ = ok none

module _ {W : Type 0} where
  result_of : Option (Outcome × Reading W) → Option (ReadResult W)
  result_of none = none
  result_of (some (o, s)) =
      some
        (record { outcome = o; received = s.received; capability = s.capability; world = s.world })

  ended : Outcome → GetCapability → W → Option (ReadResult W)
  ended o c w = some (record { outcome = o; received = []; capability = c; world = w })

  caught_result : Option (ReadResult W) → Option (ReadResult W)
  unfolding caught
  caught_result none = none
  caught_result (some r) = some (record r { outcome = caught r.outcome })

  -- A code, or GetAbortedError or ClientStoppedError.
  code_of_read : CodeRead × GetCapability × W → (Outcome ⊎ ℕ) × GetCapability × W
  code_of_read (code_stopped, c, w) = (inl client_stopped, c, w)
  code_of_read (code_raised e, c, w) = (inl (request_raised e), c, w)
  code_of_read (no_code, c, w) = (inl aborted, c, w)
  code_of_read (code_read p, c, w) = elim c.manufacturer_code [
    | none ↦ (inl aborted, c, w)
    | some code ↦ (inr code, c, w)
  ]

module _ {W : Type 0} (attempt : W → GetCapability → List ℕ → Attempt × GetCapability × W)
    (class_code : ℕ) where
  -- _read_manufacturer_code
  pub request_code : GetCapability → W → CodeRead × GetCapability × W
  unfolding after_code
  request_code c w =
      let reply = attempt w c (manufacturer_epc ∷ []) in
      let (code, known) = after_code reply.0 reply.1 in (code, known, reply.2)

  -- The batches for what is not read yet.
  pub read_batches : ℕ → Bool → List ℕ → Dict ℕ Property → GetCapability → W → Option (ReadResult W)
  unfolding result_of unread_epcs
  read_batches fuel probe epcs received c w =
      result_of
        (run_get_batches attempt probe class_code fuel (unread_epcs epcs received) c received w)

  -- setup_get, behind its request for the code
  pub after_setup_code : ℕ → List ℕ → CodeRead × GetCapability × W → Option (ReadResult W)
  unfolding ended read_batches
  after_setup_code fuel epcs (code_stopped, c, w) = ended client_stopped c w
  after_setup_code fuel epcs (code_raised e, c, w) = ended (request_raised e) c w
  after_setup_code fuel epcs (no_code, c, w) = ended aborted c w
  after_setup_code fuel epcs (code_read p, c, w) =
      read_batches fuel true epcs ((manufacturer_epc, p) ∷ []) c w

  -- setup_get: on a return, its result is `properties_of` what it received.
  pub setup_get : ℕ → Bool → List ℕ → GetCapability → W → Option (ReadResult W)
  unfolding ended read_batches after_setup_code request_code is_none
  setup_get fuel reachable epcs c w =
      if not reachable
      then ended aborted c w
      else if is_none c.manufacturer_code
      then after_setup_code fuel epcs (request_code c w)
      else read_batches fuel true epcs [] c w

  -- _get_at_address, behind its request for the code
  pub after_get_code : ℕ → List ℕ → CodeRead × GetCapability × W → Option (ReadResult W)
  unfolding ended read_batches
  after_get_code fuel epcs (code_stopped, c, w) = ended client_stopped c w
  after_get_code fuel epcs (code_raised e, c, w) = ended (request_raised e) c w
  after_get_code fuel epcs (no_code, c, w) = ended finished c w
  after_get_code fuel epcs (code_read p, c, w) =
      read_batches fuel false epcs
        (if contains epcs manufacturer_epc then (manufacturer_epc, p) ∷ [] else []) c w

  -- _get_at_address
  pub get_at_address : ℕ → List ℕ → GetCapability → W → Option (ReadResult W)
  unfolding read_batches after_get_code request_code is_none has_get_batch_policy_for_class
  get_at_address fuel epcs c w =
      if is_none c.manufacturer_code && has_get_batch_policy_for_class class_code
      then after_get_code fuel epcs (request_code c w)
      else read_batches fuel false epcs [] c w

  -- get: on a return, its result is `properties_of` what it received.
  pub get : ℕ → Bool → List ℕ → GetCapability → W → Option (ReadResult W)
  unfolding ended caught_result get_at_address
  get fuel reachable epcs c w =
      if not reachable || is_empty epcs
      then ended finished c w
      else caught_result (get_at_address fuel epcs c w)

  -- read_manufacturer_code
  unfoldable pub read_manufacturer_code :
      Bool → GetCapability → W → (Outcome ⊎ ℕ) × GetCapability × W
  unfolding code_of_read request_code
  read_manufacturer_code reachable c w = elim c.manufacturer_code [
    | some code ↦ (inr code, c, w)
    | none ↦ if reachable then code_of_read (request_code c w) else (inl aborted, c, w)
  ]

  -- request_get: the properties of the response, if there is one.
  unfoldable pub request_get :
      Bool → List ℕ → GetCapability → W → Result (Option (List Property)) × GetCapability × W
  unfolding response_of
  request_get addressed epcs c w =
      if not addressed || is_empty epcs
      then (ok none, c, w)
      else (let reply = attempt w c epcs in (response_of reply.0, reply.1, reply.2))
