-- ===== src/Client/Sending/Stop.antt =====
-- `stop` of src/pyhems/runtime.py and those that wait.
use pyhems.Client.RequestQueue.{
  NodeRequestQueue, Waiter, FutureState, failed, is_done, set_future, fail_each, fail_waiters,
}
use pyhems.Client.Routing.{PendingRequest}
use pyhems.Client.Sending.{Client, set_queue, undone_requests, fail_queues, queue_numbers, stop}
use pyhems.Common.{
  ◌==◌, if◌then◌else◌, ==_iff, Bool-cases, some_inj, All, All-map, contains, contains-cons, ℕ_key,
  same_list, list_key, Dict, find, ℕ, ◌≡◌, refl, sym, ap, ◌∙◌, subst, ◌⊎◌, inl, inr, Bool, true,
  false, some, List, [], ◌∷◌, arith,
}

set_future_keeps :
    (futures : ℕ → FutureState) (s n : ℕ)
    → is_done (futures n) ≡ true
    → is_done (set_future futures s failed n) ≡ true
unfolding set_future is_done
set_future_keeps futures s n h = elim (Bool-cases (n == s)) [
  | inl hit ↦ rw hit refl
  | inr other ↦ rw other h
]

set_future-failed :
    (futures : ℕ → FutureState) (s : ℕ) → is_done (set_future futures s failed s) ≡ true
unfolding set_future is_done
set_future-failed futures s = let same : (s == s) ≡ true = ground arith in rw same refl

fail_each_keeps :
    (ws : List Waiter) (futures : ℕ → FutureState) (n : ℕ)
    → is_done (futures n) ≡ true
    → is_done (fail_each ws futures n) ≡ true
unfolding fail_each
fail_each_keeps [] futures n h = h
fail_each_keeps (w ∷ ws) futures n h = fail_each_keeps ws _ n (still (is_done (futures w.sequence)))
  where
    still :
        (b : Bool)
        → is_done ((if b then futures else set_future futures w.sequence failed) n) ≡ true
    still true = h
    still false = set_future_keeps futures w.sequence n h

abbrev pub AllDone : (ℕ → FutureState) → List Waiter → Type 0
AllDone futures = All (λ w. is_done (futures w.sequence) ≡ true)

fail_each-AllDone :
    (ws : List Waiter) (futures : ℕ → FutureState) → AllDone (fail_each ws futures) ws
unfolding fail_each
fail_each-AllDone [] futures = tt
fail_each-AllDone (w ∷ ws) futures = (
  fail_each_keeps ws _ w.sequence (now (is_done (futures w.sequence)) refl),
  fail_each-AllDone ws _,
)
  where
    now :
        (b : Bool)
        → is_done (futures w.sequence) ≡ b
        → is_done ((if b then futures else set_future futures w.sequence failed) w.sequence) ≡ true
    now true e = e
    now false e = set_future-failed futures w.sequence

fail_queues_keeps :
    (is : List ℕ) (queues : ℕ → NodeRequestQueue) (i n : ℕ)
    → is_done ((queues i).futures n) ≡ true
    → is_done ((fail_queues is queues i).futures n) ≡ true
unfolding fail_queues set_queue fail_waiters
fail_queues_keeps [] queues i n h = h
fail_queues_keeps (j ∷ is) queues i n h = fail_queues_keeps is _ i n (elim (Bool-cases (i == j)) [
  | inr other ↦ rw other h
  | inl hit ↦
      let same : i ≡ j = (==_iff i j).0 hit in
      rw hit (
        fail_each_keeps (queues j).waiters (queues j).futures n
          (subst (λ x. is_done ((queues x).futures n) ≡ true) same h))
])

fail_queues-AllDone :
    (is : List ℕ) (queues : ℕ → NodeRequestQueue) (i : ℕ)
    → contains is i ≡ true
    → AllDone (fail_queues is queues i).futures (queues i).waiters
unfolding fail_queues set_queue fail_waiters contains
fail_queues-AllDone [] queues i h = absurd cc
fail_queues-AllDone (j ∷ is) queues i h = elim (Bool-cases (i == j)) [
  | inl hit ↦
      let same : i ≡ j = (==_iff i j).0 hit in
      All-map _ _ (queues i).waiters (λ w done. fail_queues_keeps is _ i w.sequence done)
        (rw hit (
          subst (λ x. AllDone (fail_each (queues j).waiters (queues j).futures) (queues x).waiters)
            (sym same) (fail_each-AllDone (queues j).waiters (queues j).futures)))
  | inr other ↦
      let unchanged : set_queue queues j (fail_waiters (queues j)) i ≡ queues i =
        unfold set_queue in rw other refl in
      subst
        (λ q.
          AllDone (fail_queues is (set_queue queues j (fail_waiters (queues j))) i).futures
            q.waiters)
        unchanged
        (fail_queues-AllDone is (set_queue queues j (fail_waiters (queues j))) i
          (ground (arith, h, other)))
]

find-queue_numbers :
    (d : Dict (List ℕ) ℕ) (address : List ℕ) (i : ℕ)
    → find d address ≡ some i
    → contains (queue_numbers d) i ≡ true
unfolding find queue_numbers contains
find-queue_numbers [] address i e = absurd cc
find-queue_numbers ((a, j) ∷ d) address i e = elim (Bool-cases (same_list a address)) [
  | inl hit ↦ let same : j ≡ i = some_inj (rw hit at e) in ground (arith, same)
  | inr other ↦ ground (arith, find-queue_numbers d address i (rw other at e))
]

find-undone_requests :
    (d : Dict ℕ PendingRequest) (tid : ℕ) (r : PendingRequest)
    → find d tid ≡ some r
    → (r.future_done ≡ true) ⊎ (contains (undone_requests d) tid ≡ true)
unfolding find undone_requests contains
find-undone_requests [] tid r e = absurd cc
find-undone_requests ((t, x) ∷ d) tid r e = elim (Bool-cases (t == tid)) [
  | inl hit ↦ elim (Bool-cases x.future_done) [
    | inl done ↦ inl (ap (λ q. q.future_done) (sym (some_inj (rw hit at e))) ∙ done)
    | inr undone ↦ inr (rw undone (ground (arith, hit)))
  ]
  | inr other ↦ later x.future_done (find-undone_requests d tid r (rw other at e))
]
  where
    later :
        (b : Bool)
        → (r.future_done ≡ true) ⊎ (contains (undone_requests d) tid ≡ true)
        → (r.future_done ≡ true)
          ⊎ (contains (if b then undone_requests d else t ∷ undone_requests d) tid ≡ true)
    later b (inl done) = inl done
    later true (inr failed_too) = inr failed_too
    later false (inr failed_too) =
        inr (ground (arith, contains-cons t (undone_requests d) tid, failed_too))

-- When a started client stops, nobody is left waiting for it: each request that was pending has its
-- future done already or is among those that `stop` fails; in each queue of a node, the future of
-- every waiter is done afterwards; and no request is pending and no queue is registered any more.
pub stop-IsFinal :
    (c : Client)
    → c.started ≡ true
    → ((tid : ℕ) (r : PendingRequest)
        → find c.pending tid ≡ some r
        → (r.future_done ≡ true) ⊎ (contains (stop c).1 tid ≡ true))
      × ((address : List ℕ) (i : ℕ)
          → find c.node_queues address ≡ some i
          → AllDone ((stop c).0.queues i).futures (c.queues i).waiters)
      × ((stop c).0.pending ≡ [])
      × ((stop c).0.node_queues ≡ [])
unfolding stop
stop-IsFinal c h = rw h (
  find-undone_requests c.pending,
  (λ address i e.
      fail_queues-AllDone (queue_numbers c.node_queues) c.queues i
        (find-queue_numbers c.node_queues address i e)),
  refl,
  refl,
)
