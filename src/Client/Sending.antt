-- ===== src/Client/Sending.antt =====
-- Sending a request and waiting for its response, `_send_request` of src/pyhems/runtime.py, and what
-- calls it. What other tasks, the socket and the clock do is the record `Surroundings`.
pub mod Cleanup
pub mod Stop
use pyhems.Protocol.Objects.{Eoj}
use pyhems.Protocol.Services.{Esv, esv_code}
use pyhems.Protocol.Frame.{Property, Frame, encode}
use pyhems.Client.GetBatches.{Attempt, stopped, unsent, unanswered, raises, answered}
use pyhems.Client.Replies.{Exchange}
use pyhems.Client.RequestQueue.{
  RequestPriority, NodeRequestQueue, empty_queue, Admission, admitted, waiting, acquire, release,
  idle, fail_waiters,
}
use pyhems.Client.Routing.{PendingRequest}
use pyhems.Client.TransactionId.{next_transaction_id}
use pyhems.Common.{
  ltb, leb, ◌==◌, if◌then◌else◌, ltb→lt, lt→ltb, leb→le, ==_iff, &&_left, &&_right, Bool-cases,
  Option-cases, is_some, ltb-eq-false, some_inj, length, take, drop, select, is_empty, get_elem?,
  length-append, take-append-drop, take-append, drop-append, length-take_of_le, length-select, All,
  All-append, All-take, All-drop, All-map, contains, intersection, difference, union, contains-nil,
  contains-cons, contains-append, contains-select, contains-intersection, contains-difference,
  contains-union, set_laws, contains-is_empty, AllBytes, int_from_bytes, digits_be, int_to_bytes,
  int_from_bytes-digits_be, digits_be-int_from_bytes, int_from_bytes-lt, digits_be-AllBytes,
  length-digits_be, int_to_bytes-eq-ok, DecodeFault, too_short, invalid_header, unknown_esv,
  incomplete_header, incomplete_data, Exception, value_error, overflow_error, lookup_error,
  type_error, runtime_error, recursion_error, frame_decode_error, Result, ok, raised, ◌>>=◌, ok_inj,
  bind_ok, contains-Permᴰ, length-Perm, contains-Perm, contains-length, Key, ℕ_key, same_list,
  same_list_iff, list_key, same_refl, Dict, find, put, remove, has_key, set_default, find-put,
  find-remove, find-set_default, length-put, length-put_old, length-remove, Distinct, Distinct-prop,
  Distinct-Perm, Distinct-left, Distinct-right, Distinct-select, length-select_lt,
  length-le_of_Distinct, contains_of_length, ℕ, zero, suc, ◌+◌, ◌-◌, ◌*◌, ◌/◌, ◌%◌, ◌^◌, ◌≤◌, ◌<◌,
  min, ◌≡◌, refl, sym, ap, ◌∙◌, subst, ◌≡⟨◌⟩◌, ◌∎, ◌≢◌, ◌↔◌, ◌⊎◌, inl, inr, Bool, true, false, not,
  ◌&&◌, ◌||◌, Option, none, some, List, [], ◌∷◌, ◌++◌, map, append_assoc, append-nil, arith,
}

-- A queue object is known by its number: a task keeps its queue, whatever the client's dictionary
-- of queues holds by then.
pub record Client : Type 0 where
  pub started : Bool
  pub tid_counter : ℕ
  pub pending : Dict ℕ PendingRequest
  pub node_queues : Dict (List ℕ) ℕ
  pub queues : ℕ → NodeRequestQueue
  pub next_queue : ℕ

-- The arguments of `_send_request`.
pub record Request : Type 0 where
  pub address : List ℕ
  pub deoj : Eoj
  pub seoj : Eoj
  pub esv : Esv
  pub properties : List Property
  pub response_esvs : List ℕ

pub set_queue : (ℕ → NodeRequestQueue) → ℕ → NodeRequestQueue → ℕ → NodeRequestQueue
set_queue queues i q n = if n == i then q else queues n

-- self._node_queues.get(address), or a new queue: its number and the client.
pub queue_of : List ℕ → Client → ℕ × Client
unfolding set_queue
queue_of address c = elim (find c.node_queues address) [
  | some i ↦ (i, c)
  | none ↦ (
    c.next_queue,
    record c {
      node_queues = put c.node_queues address c.next_queue;
      queues = set_queue c.queues c.next_queue empty_queue;
      next_queue = c.next_queue + 1;
    },
  )
]

-- queue.acquire(priority), up to its wait
pub enter_queue : RequestPriority → ℕ → Client → Client × Admission
unfolding set_queue
enter_queue priority i c =
    let (q, admission) = acquire priority (c.queues i) in
    (record c { queues = set_queue c.queues i q }, admission)

pub as_pending : Request → PendingRequest
as_pending r = record {
  address = r.address;
  deoj = r.deoj;
  seoj = r.seoj;
  response_esvs = r.response_esvs;
  future_done = false;
}

-- The new transaction ID, under which the request is pending from now on.
pub register_request : Request → Client → Result (ℕ × Client)
unfolding as_pending
register_request r c = next_transaction_id c.tid_counter (λ t. has_key c.pending t) >>= λ tid.
    ok (tid, record c { tid_counter = tid; pending = put c.pending tid (as_pending r) })

forget_request : Option ℕ → Dict ℕ PendingRequest → Dict ℕ PendingRequest
forget_request none pending = pending
forget_request (some tid) pending = remove pending tid

-- self._node_queues.get(address) is queue
is_registered : ℕ → Option ℕ → Bool
is_registered i none = false
is_registered i (some j) = i == j

-- `finally`: the request is no longer pending, the slot goes on, and an idle queue is dropped.
pub finish_request : List ℕ → ℕ → Option ℕ → Client → Client
unfolding forget_request set_queue is_registered
finish_request address i tid c =
    let q = (release (c.queues i)).0 in
    record c {
      pending = forget_request tid c.pending;
      queues = set_queue c.queues i q;
      node_queues =
          if idle q && is_registered i (find c.node_queues address)
          then remove c.node_queues address
          else c.node_queues;
    }

pub frame_of : ℕ → Request → Frame
frame_of tid r = record {
  seoj = r.seoj;
  deoj = r.deoj;
  esv = r.esv;
  tid = tid;
  properties = r.properties;
}

-- How the wait for the slot ends: with the slot, or with ClientStoppedError.
pub data SlotWait : Type 0 where
  slot_granted slot_failed : SlotWait

-- How the wait for the response ends: the time is over and the future is not done, with a frame, or
-- with ClientStoppedError. A task that is cancelled while it waits is left out.
pub data ReplyWait : Type 0 where
  timed_out failed_by_stop : ReplyWait
  replied : Frame → ReplyWait

-- What happens at each `await`, and whether the socket takes a datagram or raises OSError. Other
-- tasks may change the client meanwhile.
pub record Surroundings (W : Type 0) : Type 0 where
  pub wait_slot : ℕ → Client → W → SlotWait × Client × W
  pub transmit : List ℕ → List ℕ → W → Bool × W
  pub wait_reply : ℕ → Client → W → ReplyWait × Client × W

exchange_of : ReplyWait → Exchange
exchange_of timed_out = Exchange.unanswered
exchange_of failed_by_stop = Exchange.stopped
exchange_of (replied f) = Exchange.answered f

module _ {W : Type 0} (around : Surroundings W) where
  transmit_encoded : List ℕ → W → Result (List ℕ) → Result Bool × W
  transmit_encoded address w (raised e) = (raised e, w)
  transmit_encoded address w (ok bytes) =
      let (sent, w') = around.transmit bytes address w in (ok sent, w')

  -- _send_to_address; an error of the encoding is not caught.
  pub send_to_address : Frame → List ℕ → Client → W → Result Bool × W
  unfolding transmit_encoded encode
  send_to_address frame address c w =
      if c.started then transmit_encoded address w (encode frame) else (ok false, w)

  -- The wait for the response, if the request was sent.
  await_reply : ℕ → Client → Result Bool × W → Result Exchange × Client × W
  unfolding exchange_of
  await_reply tid c (raised e, w) = (raised e, c, w)
  await_reply tid c (ok false, w) = (ok Exchange.not_sent, c, w)
  await_reply tid c (ok true, w) =
      let (reply, c', w') = around.wait_reply tid c w in (ok (exchange_of reply), c', w')

  -- What `_send_request` does with its transaction ID, up to the `finally`.
  pub transmit_request : Request → ℕ → Client → W → Result Exchange × Client × W
  unfolding send_to_address await_reply frame_of
  transmit_request r tid c w = await_reply tid c (send_to_address (frame_of tid r) r.address c w)

  finish_exchange : Request → ℕ → ℕ → Result Exchange × Client × W → Result Exchange × Client × W
  unfolding finish_request
  finish_exchange r i tid (e, c, w) = (e, finish_request r.address i (some tid) c, w)

  send_registered : Request → ℕ → Client → W → Result (ℕ × Client) → Result Exchange × Client × W
  unfolding finish_exchange transmit_request
  send_registered r i c w (raised e) = (raised e, finish_request r.address i none c, w)
  send_registered r i c w (ok (tid, c')) = finish_exchange r i tid (transmit_request r tid c' w)

  -- With the slot. That no transaction ID is left is an error, and the `finally` comes behind it too.
  pub send_with_slot : Request → ℕ → Client → W → Result Exchange × Client × W
  unfolding register_request send_registered
  send_with_slot r i c w = send_registered r i c w (register_request r c)

  send_after_wait : Request → ℕ → SlotWait × Client × W → Result Exchange × Client × W
  unfolding send_with_slot
  send_after_wait r i (slot_granted, c, w) = send_with_slot r i c w
  send_after_wait r i (slot_failed, c, w) = (ok Exchange.stopped, c, w)

  send_admitted : Request → ℕ → W → Client × Admission → Result Exchange × Client × W
  unfolding send_with_slot send_after_wait
  send_admitted r i w (c, admitted) = send_with_slot r i c w
  send_admitted r i w (c, waiting n) = send_after_wait r i (around.wait_slot n c w)

  send_in_queue : RequestPriority → Request → W → ℕ × Client → Result Exchange × Client × W
  unfolding enter_queue send_admitted
  send_in_queue priority r w (i, c) = send_admitted r i w (enter_queue priority i c)

  -- _send_request
  unfoldable pub send_request :
      RequestPriority → Request → Client → W → Result Exchange × Client × W
  unfolding queue_of send_in_queue
  send_request priority r c w = send_in_queue priority r w (queue_of r.address c)

-- What `_attempt_get_request` makes of the exchange; an exception goes on.
unfoldable pub attempt_of : Result Exchange → Attempt
attempt_of (raised e) = raises e
attempt_of (ok Exchange.stopped) = stopped
attempt_of (ok Exchange.not_sent) = unsent
attempt_of (ok Exchange.unanswered) = unanswered
attempt_of (ok (Exchange.answered f)) = answered f.properties

-- _GET_RESPONSE_ESVS
abbrev pub get_response_esvs : List ℕ
get_response_esvs = esv_code Esv.get_res ∷ esv_code Esv.get_sna ∷ []

-- _attempt_get_request
unfoldable pub attempt_get_request :
    {W : Type 0}
    → Surroundings W
    → RequestPriority
    → List ℕ
    → Eoj
    → Eoj
    → List ℕ
    → Client
    → W
    → Attempt × Client × W
unfolding send_request attempt_of
attempt_get_request around priority address deoj seoj epcs c w =
    let r : Request = record {
      address = address;
      deoj = deoj;
      seoj = seoj;
      esv = Esv.get;
      properties = map (λ e. record { epc = e; edt = [] }) epcs;
      response_esvs = get_response_esvs;
    } in
    let (reply, c', w') = send_request around priority r c w in (attempt_of reply, c', w')

pub undone_requests : Dict ℕ PendingRequest → List ℕ
undone_requests [] = []
undone_requests ((tid, r) ∷ pending) =
    if r.future_done then undone_requests pending else tid ∷ undone_requests pending

-- queue.fail_waiters(...), for each of the queues
pub fail_queues : List ℕ → (ℕ → NodeRequestQueue) → ℕ → NodeRequestQueue
unfolding set_queue
fail_queues [] queues = queues
fail_queues (i ∷ is) queues = fail_queues is (set_queue queues i (fail_waiters (queues i)))

-- list(self._node_queues.values())
pub queue_numbers : Dict (List ℕ) ℕ → List ℕ
queue_numbers [] = []
queue_numbers ((address, i) ∷ d) = i ∷ queue_numbers d

-- `stop`, for what is pending and queued; the transaction IDs are those whose futures it fails.
pub stop : Client → Client × List ℕ
unfolding undone_requests fail_queues queue_numbers
stop c =
    if c.started
    then (
      record c {
        started = false;
        pending = [];
        node_queues = [];
        queues = fail_queues (queue_numbers c.node_queues) c.queues;
      },
      undone_requests c.pending,
    )
    else (c, [])
