-- ===== src/Client/Sending/Cleanup.antt =====
-- What `_send_request` of src/pyhems/runtime.py leaves behind.
use pyhems.Protocol.Frame.{Frame}
use pyhems.Client.Replies.{Exchange}
use pyhems.Client.Routing.{PendingRequest}
use pyhems.Client.RequestQueue.{
  RequestPriority, NodeRequestQueue, empty_queue, admitted, acquire, release, release_loop, pop_min,
  idle,
}
use pyhems.Client.TransactionId.{next_transaction_id, IsTransactionId, next_transaction_id_lem}
use pyhems.Client.Sending.{
  Client, Request, set_queue, queue_of, enter_queue, as_pending, register_request, forget_request,
  is_registered, finish_request, ReplyWait, timed_out, failed_by_stop, replied, Surroundings,
  exchange_of, send_to_address, await_reply, frame_of, transmit_request, stop, finish_exchange,
  send_registered, send_with_slot, send_admitted, send_in_queue, send_request,
}
use pyhems.Common.{
  ◌==◌, if◌then◌else◌, Bool-cases, is_some, Result, ok, raised, ◌>>=◌, Key, ℕ_key, list_key,
  same_refl, Dict, find, put, remove, has_key, find-put, find-remove, ℕ, ◌+◌, ◌≡◌, refl, ◌∙◌, subst,
  ◌⊎◌, inl, inr, Bool, true, false, ◌&&◌, Option, none, some, List, [], arith,
}

-- A request that was registered: its transaction ID was free, and it alone is new.
record IsRegistered (r : Request) (c : Client) (tid : ℕ) (c' : Client) : Type 0 where
  pub free : find c.pending tid ≡ none
  pub client : c' ≡ record c { tid_counter = tid; pending = put c.pending tid (as_pending r) }

abbrev Registers : Request → Client → Result (ℕ × Client) → Type 0
Registers r c (ok (tid, c')) = IsRegistered r c tid c'
Registers r c (raised e) = Unit

register_request-Registers : (r : Request) (c : Client) → Registers r c (register_request r c)
unfolding register_request
register_request-Registers r c =
    of_id (next_transaction_id c.tid_counter (λ t. has_key c.pending t))
      (next_transaction_id_lem c.tid_counter (λ t. has_key c.pending t))
  where
    none_of : (o : Option PendingRequest) → is_some o ≡ false → o ≡ none
    none_of none h = refl
    none_of (some x) h = absurd cc

    of_id :
        (id : Result ℕ)
        → IsTransactionId (λ t. has_key c.pending t) id
        → Registers r c (
            id >>= λ tid.
            ok (tid, record c { tid_counter = tid; pending = put c.pending tid (as_pending r) }))
    of_id (raised e) h = tt
    of_id (ok tid) h = record { free = none_of (find c.pending tid) h.free; client = refl }

-- The queue object of an admitted request, when nobody else came: it is busy, without waiters.
abbrev held : NodeRequestQueue
held = record empty_queue { busy = true }

release-held : (release held).0 ≡ empty_queue
unfolding release release_loop pop_min
release-held = refl

-- The client after the request has entered its new queue.
abbrev entered : List ℕ → Client → Client
entered address c = record c {
  node_queues = put c.node_queues address c.next_queue;
  queues = set_queue (set_queue c.queues c.next_queue empty_queue) c.next_queue held;
  next_queue = c.next_queue + 1;
}

acquire-empty_queue : (priority : RequestPriority) → acquire priority empty_queue ≡ (held, admitted)
unfolding acquire idle
acquire-empty_queue priority = refl

find-put_same {ℓ κ} :
    {K : Type ℓ} {V : Type κ} ⦃key : Key K⦄ (d : Dict K V) (k : K) (v : V)
    → find (put d k v) k ≡ some v
find-put_same ⦃key⦄ d k v = rw (find-put d k k v, same_refl k) refl

-- A new key that is taken out again.
find-remove-put {ℓ κ} :
    {K : Type ℓ} {V : Type κ} ⦃key : Key K⦄ (d : Dict K V) (k j : K) (v : V)
    → find d k ≡ none
    → find (remove (put d k v) k) j ≡ find d j
find-remove-put ⦃key⦄ d k j v new = elim (Bool-cases (key.same k j)) [
  | inl hit ↦
      let gone : find d j ≡ none = subst (λ x. find d x ≡ none) ((key.same_iff k j).0 hit) new in
      find-remove (put d k v) k j ∙ rw (hit, gone) refl
  | inr other ↦ find-remove (put d k v) k j ∙ rw (find-put d k j v, other) refl
]

find-remove-remove {ℓ κ} :
    {K : Type ℓ} {V : Type κ} ⦃key : Key K⦄ (d : Dict K V) (k j : K)
    → find (remove (remove d k) k) j ≡ find (remove d k) j
find-remove-remove ⦃key⦄ d k j = ground (arith, find-remove (remove d k) k j, find-remove d k j)

set_queue-same :
    (queues : ℕ → NodeRequestQueue) (i : ℕ) (q : NodeRequestQueue) → set_queue queues i q i ≡ q
unfolding set_queue
set_queue-same queues i q = let same : (i == i) ≡ true = ground arith in rw same refl

enter_queue-entered :
    (priority : RequestPriority) (address : List ℕ) (c : Client)
    → find c.node_queues address ≡ none
    → let (i, c') = queue_of address c in
      (i ≡ c.next_queue) × (enter_queue priority i c' ≡ (entered address c, admitted))
unfolding queue_of enter_queue
enter_queue-entered priority address c e =
    rw (queue_of, e)
      (
        refl,
        rw (set_queue-same c.queues c.next_queue empty_queue)
            (rw (acquire-empty_queue priority) refl),
      )

-- Nothing of the request is left: what is pending, and the queues, are as before.
abbrev pub LeavesNoTrace : Client → Client → Type 0
LeavesNoTrace c c' =
    ((tid : ℕ) → find c'.pending tid ≡ find c.pending tid)
    × ((address : List ℕ) → find c'.node_queues address ≡ find c.node_queues address)

finish_request-LeavesNoTrace :
    (address : List ℕ) (c c' : Client) (t : Option ℕ)
    → find c.node_queues address ≡ none
    → c'.node_queues ≡ put c.node_queues address c.next_queue
    → c'.queues c.next_queue ≡ held
    → ((tid : ℕ) → find (forget_request t c'.pending) tid ≡ find c.pending tid)
    → LeavesNoTrace c (finish_request address c.next_queue t c')
unfolding finish_request
finish_request-LeavesNoTrace address c c' t new queues slot cleared =
    let known : find c'.node_queues address ≡ some c.next_queue =
      rw queues (find-put_same c.node_queues address c.next_queue) in
    let dropped : (idle empty_queue && is_registered c.next_queue (some c.next_queue)) ≡ true =
      unfold idle is_registered in ground arith in
    (
      cleared,
      λ a.
          rw (slot, release-held, known, dropped, queues)
            (find-remove-put c.node_queues address a c.next_queue new),
    )

-- The client is stopped: no request is pending, and no queue is registered.
abbrev pub IsStopped : Client → Type 0
IsStopped c = (c.started ≡ false) × (c.pending ≡ []) × (c.node_queues ≡ [])

finish_request-IsStopped :
    (address : List ℕ) (i tid : ℕ) (c : Client)
    → c.started ≡ true
    → IsStopped (finish_request address i (some tid) (stop c).0)
unfolding finish_request stop is_registered forget_request remove
finish_request-IsStopped address i tid c running = rw running (refl, refl, none_either _)
  where
    none_either : (b : Bool) → Path (Dict (List ℕ) ℕ) (if b then [] else []) []
    none_either true = refl
    none_either false = refl

-- How a wait for a response changes the client, while nothing else happens to it: not at all, or
-- the request is taken out with its answer, or the client is stopped.
abbrev pub IsWait : ℕ → Client → ReplyWait × Client → Type 0
IsWait tid c (timed_out, c') = c' ≡ c
IsWait tid c (replied f, c') = c' ≡ record c { pending = remove c.pending tid }
IsWait tid c (failed_by_stop, c') = c' ≡ (stop c).0

abbrev pub CleansUp : Client → Result Exchange → Client → Type 0
CleansUp c (ok Exchange.stopped) c' = IsStopped c'
CleansUp c _ c' = LeavesNoTrace c c'

module _ {W : Type 0} (around : Surroundings W)
    (alone : (tid : ℕ) (c : Client) (w : W)
      → let (reply, c', w') = around.wait_reply tid c w in IsWait tid c (reply, c')) where
  -- The client before the `finally`.
  abbrev IsLeft : ℕ → Client → Result Exchange → Client → Type 0
  IsLeft tid c (ok Exchange.stopped) c' = (c.started ≡ true) × (c' ≡ (stop c).0)
  IsLeft tid c _ c' = (c' ≡ c) ⊎ (c' ≡ record c { pending = remove c.pending tid })

  await_reply-IsLeft :
      (tid : ℕ) (c : Client) (sent : Result Bool × W)
      → (sent.0 ≡ ok true → c.started ≡ true)
      → let (reply, c', w') = await_reply around tid c sent in IsLeft tid c reply c'
  unfolding await_reply
  await_reply-IsLeft tid c (raised e, w) running = inl refl
  await_reply-IsLeft tid c (ok false, w) running = inl refl
  await_reply-IsLeft tid c (ok true, w) running =
      by_reply (around.wait_reply tid c w).0 (around.wait_reply tid c w).1 (alone tid c w)
        (running refl)
    where
      by_reply :
          (reply : ReplyWait) (c' : Client)
          → IsWait tid c (reply, c')
          → c.started ≡ true
          → IsLeft tid c (ok (exchange_of reply)) c'
      by_reply timed_out c' h s = inl h
      by_reply (replied f) c' h s = inr h
      by_reply failed_by_stop c' h s = (s, h)

  send_to_address-started :
      (frame : Frame) (address : List ℕ) (c : Client) (w : W)
      → (send_to_address around frame address c w).0 ≡ ok true
      → c.started ≡ true
  unfolding send_to_address
  send_to_address-started frame address c w e = elim (Bool-cases c.started) [
    | inl started ↦ started
    | inr idle_client ↦ let clash = rw idle_client at e in cc
  ]

  module _ (r : Request) (c c' : Client) (tid : ℕ) (new : find c.node_queues r.address ≡ none)
      (same : c'.pending ≡ c.pending)
      (queues : c'.node_queues ≡ put c.node_queues r.address c.next_queue)
      (slot : c'.queues c.next_queue ≡ held) (free : find c'.pending tid ≡ none) where
    abbrev sending : Client
    sending = record c' { tid_counter = tid; pending = put c'.pending tid (as_pending r) }

    finish-LeavesNoTrace :
        (left : Client)
        → (left ≡ sending) ⊎ (left ≡ record sending { pending = remove sending.pending tid })
        → LeavesNoTrace c (finish_request r.address c.next_queue (some tid) left)
    finish-LeavesNoTrace left (inl e) = rw e (
        finish_request-LeavesNoTrace r.address c sending (some tid) new queues slot (λ t.
          unfold forget_request in
          find-remove-put c'.pending tid t (as_pending r) free ∙ rw same refl))
    finish-LeavesNoTrace left (inr e) = rw e (
        finish_request-LeavesNoTrace r.address c
          (record sending { pending = remove sending.pending tid }) (some tid) new queues slot
          (λ t.
            unfold forget_request in
            find-remove-remove sending.pending tid t
            ∙ find-remove-put c'.pending tid t (as_pending r) free
            ∙ rw same refl))

    finish-CleansUp :
        (reply : Result Exchange) (left : Client)
        → IsLeft tid sending reply left
        → CleansUp c reply (finish_request r.address c.next_queue (some tid) left)
    finish-CleansUp (raised e) left h = finish-LeavesNoTrace left h
    finish-CleansUp (ok Exchange.not_sent) left h = finish-LeavesNoTrace left h
    finish-CleansUp (ok Exchange.unanswered) left h = finish-LeavesNoTrace left h
    finish-CleansUp (ok (Exchange.answered f)) left h = finish-LeavesNoTrace left h
    finish-CleansUp (ok Exchange.stopped) left h =
        rw h.1 (finish_request-IsStopped r.address c.next_queue tid sending h.0)

  abbrev SendCleansUp : Client → Result Exchange × Client × W → Type 0
  SendCleansUp c (reply, c', w) = CleansUp c reply c'

  send_registered-CleansUp :
      (r : Request) (c c' : Client) (w : W) (reg : Result (ℕ × Client))
      → find c.node_queues r.address ≡ none
      → c'.pending ≡ c.pending
      → c'.node_queues ≡ put c.node_queues r.address c.next_queue
      → c'.queues c.next_queue ≡ held
      → Registers r c' reg
      → SendCleansUp c (send_registered around r c.next_queue c' w reg)
  unfolding send_registered finish_exchange transmit_request
  send_registered-CleansUp r c c' w (raised e) new same queues slot h =
      finish_request-LeavesNoTrace r.address c c' none new queues slot
        (λ tid. unfold forget_request in rw same refl)
  send_registered-CleansUp r c c' w (ok (tid, c'')) new same queues slot h =
      let registered : Client = record c' {
        tid_counter = tid;
        pending = put c'.pending tid (as_pending r);
      } in
      rw h.client (
        finish-CleansUp r c c' tid new same queues slot h.free _ _ (
          await_reply-IsLeft tid registered
            (send_to_address around (frame_of tid r) r.address registered w)
            (send_to_address-started (frame_of tid r) r.address registered w)))

  send_in_queue-CleansUp :
      (priority : RequestPriority) (r : Request) (c : Client) (w : W) (p : ℕ × Client)
      → find c.node_queues r.address ≡ none
      → p.0 ≡ c.next_queue
      → enter_queue priority p.0 p.1 ≡ (entered r.address c, admitted)
      → SendCleansUp c (send_in_queue around priority r w p)
  unfolding send_in_queue send_admitted send_with_slot
  send_in_queue-CleansUp priority r c w (i, c') new number admission =
      rw (admission, number)
        (send_registered-CleansUp r c (entered r.address c) w
          (register_request r (entered r.address c)) new refl refl
          (set_queue-same (set_queue c.queues c.next_queue empty_queue) c.next_queue held)
          (register_request-Registers r (entered r.address c)))

  -- A request to a node that has no request on its way, while nothing changes the client but the
  -- answer to the request, which takes it out of the pending ones, and `stop`: it is admitted at once,
  -- and leaves no trace, whether it was not sent, not answered in time or answered, or ended with an
  -- error of the encoding or with no transaction ID left: the same requests are pending as before, and
  -- the same queues are registered. If the client was stopped meanwhile, the request ends with
  -- ClientStoppedError, no request is pending and no queue is registered.
  pub send_request-CleansUp :
      (priority : RequestPriority) (r : Request) (c : Client) (w : W)
      → find c.node_queues r.address ≡ none
      → let (reply, c', w') = send_request around priority r c w in CleansUp c reply c'
  unfolding send_request
  send_request-CleansUp priority r c w new =
      let (number, admission) = enter_queue-entered priority r.address c new in
      send_in_queue-CleansUp priority r c w (queue_of r.address c) new number admission
