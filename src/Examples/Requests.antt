-- ===== src/Examples/Requests.antt =====
-- Reads and requests at concrete inputs (src/pyhems/runtime.py).
use pyhems.Protocol.Objects.{Eoj, to_bytes}
use pyhems.Protocol.Services.{Esv}
use pyhems.Client.GetBatches.{GetCapability, Attempt, stopped, unanswered, answered, finished}
use pyhems.Client.GetBatches.Matching.{Honest}
use pyhems.Client.Reads.{ReadResult, properties_of, setup_get, get}
use pyhems.Client.Reads.Values.{Each, IsGiven}
use pyhems.Client.Reads.Returns.{setup_get-Each}
use pyhems.Client.RequestQueue.{NodeRequestQueue, RequestPriority, pending, acquire}
use pyhems.Protocol.Frame.{Frame}
use pyhems.Client.Replies.{Exchange}
use pyhems.Client.TransactionId.{next_transaction_id}
use pyhems.Client.Routing.{PendingRequest}
use pyhems.Client.Sending.{
  Client, Request, Surroundings, slot_granted, ReplyWait, timed_out, failed_by_stop, replied,
  send_request, attempt_get_request, stop,
}
use pyhems.Client.Sending.Cleanup.{IsWait, CleansUp, send_request-CleansUp}
use pyhems.Client.Sending.Stop.{AllDone, stop-IsFinal}
use pyhems.Common.{
  contains, int_to_bytes, ok, ℕ_key, same_list, list_key, find, remove, ℕ, ◌+◌, ◌≡◌, refl, ◌⊎◌,
  true, false, none, some, List, [], ◌∷◌, arith,
}

-- A device that answers no request for more than one EPC, and three bytes as each value.
abbrev value_of : ℕ → List ℕ
value_of e = e ∷ 0 ∷ e ∷ []

abbrev answer_of : List ℕ → Attempt
answer_of (e ∷ []) = answered (record { epc = e; edt = value_of e } ∷ [])
answer_of _ = unanswered

abbrev device : ℕ → GetCapability → List ℕ → Attempt × GetCapability × ℕ
device n c batch = (answer_of batch, c, n + 1)

abbrev unknown : GetCapability
unknown = record { observed_batch_capacity = none; manufacturer_code = none }

abbrev Values : ℕ → List ℕ → Type 0
Values e edt = edt ≡ value_of e

answer_of-Honest : (batch : List ℕ) → Honest Values (answer_of batch)
answer_of-Honest [] = tt
answer_of-Honest (e ∷ []) = (refl, tt)
answer_of-Honest (e ∷ d ∷ es) = tt

setup_get-Each_example :
    (r : ReadResult ℕ) × (setup_get device 0x0130 40 true (0x80 ∷ 0x8A ∷ 0xB0 ∷ []) unknown 0
      ≡ some r)
    × (r.outcome ≡ finished
        → Each
            (IsGiven Values)
            (0x80 ∷ 0x8A ∷ 0xB0 ∷ [])
            (properties_of r.received (0x80 ∷ 0x8A ∷ 0xB0 ∷ [])))
setup_get-Each_example =
    setup_get-Each device 0x0130 Values (λ w c batch. answer_of-Honest batch) 40 true
      (0x80 ∷ 0x8A ∷ 0xB0 ∷ []) unknown 0 (omega arith)

abbrev lamp : Eoj
lamp = record { value = 0x029001 }

abbrev waiting_request : PendingRequest
waiting_request = record {
  address = 1 ∷ [];
  deoj = lamp;
  seoj = lamp;
  response_esvs = 0x72 ∷ [];
  future_done = false;
}

-- One node has a request on its way and another one waiting for the slot.
abbrev busy_queue : NodeRequestQueue
busy_queue = record {
  busy = true;
  waiters = record { priority = 2; sequence = 0 } ∷ [];
  next_sequence = 1;
  futures = λ n. pending;
}

abbrev client : Client
client = record {
  started = true;
  tid_counter = 7;
  pending = (7, waiting_request) ∷ [];
  node_queues = (1 ∷ [], 0) ∷ [];
  queues = λ n. busy_queue;
  next_queue = 1;
}

abbrev read_power : Request
read_power = record {
  address = 2 ∷ [];
  deoj = lamp;
  seoj = lamp;
  esv = Esv.get;
  properties = record { epc = 0x80; edt = [] } ∷ [];
  response_esvs = 0x72 ∷ 0x52 ∷ [];
}

no_queue_test : find client.node_queues (2 ∷ []) ≡ none
unfolding find same_list
no_queue_test = refl

abbrev power_is_on : Frame
power_is_on = record {
  seoj = lamp;
  deoj = lamp;
  esv = Esv.get_res;
  tid = 8;
  properties = record { epc = 0x80; edt = 0x30 ∷ [] } ∷ [];
}

-- Nobody answers, or the request is answered, or the client is stopped.
data Fate : Type 0 where
  silence reply shutdown : Fate

wait_for : ℕ → Client → Fate → ReplyWait × Client × Fate
wait_for tid c silence = (timed_out, c, silence)
wait_for tid c reply = (replied power_is_on, record c { pending = remove c.pending tid }, reply)
wait_for tid c shutdown = (failed_by_stop, (stop c).0, shutdown)

wait_for-IsWait :
    (tid : ℕ) (c : Client) (fate : Fate)
    → let (how, c', fate') = wait_for tid c fate in IsWait tid c (how, c')
unfolding wait_for
wait_for-IsWait tid c silence = refl
wait_for-IsWait tid c reply = refl
wait_for-IsWait tid c shutdown = refl

abbrev network : Surroundings Fate
network = record {
  wait_slot = λ n c fate. (slot_granted, c, fate);
  transmit = λ bytes address fate. (true, fate);
  wait_reply = wait_for;
}

send_request_test :
    (send_request network RequestPriority.poll read_power client reply).0
    ≡ ok (Exchange.answered power_is_on)
unfolding send_request wait_for next_transaction_id acquire find same_list int_to_bytes to_bytes
send_request_test = refl

send_request-CleansUp_example :
    let (answer, c', fate) = send_request network RequestPriority.poll read_power client reply in
    CleansUp client answer c'
send_request-CleansUp_example =
    send_request-CleansUp network wait_for-IsWait RequestPriority.poll read_power client reply
      no_queue_test

attempt_get_request_test :
    (attempt_get_request network RequestPriority.poll
      (2 ∷ [])
      lamp
      lamp
      (0x80 ∷ [])
      client
      shutdown).0
    ≡ stopped
unfolding attempt_get_request wait_for next_transaction_id acquire find same_list int_to_bytes
    to_bytes
attempt_get_request_test = refl

stop-IsFinal_example :
    ((tid : ℕ) (r : PendingRequest)
      → find client.pending tid ≡ some r
      → (r.future_done ≡ true) ⊎ (contains (stop client).1 tid ≡ true))
    × ((address : List ℕ) (i : ℕ)
        → find client.node_queues address ≡ some i
        → AllDone ((stop client).0.queues i).futures (client.queues i).waiters)
    × ((stop client).0.pending ≡ [])
    × ((stop client).0.node_queues ≡ [])
stop-IsFinal_example = stop-IsFinal client refl
