-- ===== src/Client/TransactionId.antt =====
-- `_next_transaction_id` of src/pyhems/runtime.py. `used` says which transaction IDs are keys of
-- the dictionary of pending requests.
use pyhems.Common.{
  if◌then◌else◌, Bool-cases, runtime_error, Result, ok, raised, ℕ_key, list_key, ℕ, zero, suc, ◌+◌,
  ◌-◌, ◌%◌, ◌≤◌, ◌<◌, ◌≡◌, refl, sym, ap, ◌∙◌, subst, inl, inr, Bool, true, false, arith,
}

-- The loop; a result is the new value of `_tid_counter`, which is the transaction ID too.
pub next_transaction_id_loop : ℕ → ℕ → (ℕ → Bool) → Result ℕ
next_transaction_id_loop zero counter used = raised runtime_error
next_transaction_id_loop (suc rounds) counter used =
    let tid = counter % 65535 + 1 in
    let rest = next_transaction_id_loop rounds tid used in if used tid then rest else ok tid

unfoldable pub next_transaction_id : ℕ → (ℕ → Bool) → Result ℕ
unfolding next_transaction_id_loop
next_transaction_id counter used = next_transaction_id_loop 65535 counter used

-- A transaction ID that is in range and free.
pub record IsFreeId (used : ℕ → Bool) (tid : ℕ) : Type 0 where
  pub not_zero : 1 ≤ tid
  pub two_bytes : tid ≤ 65535
  pub free : used tid ≡ false

-- The ID that the loop tries in its round `k`, from 0.
id_at : ℕ → ℕ → ℕ
id_at counter k = (counter + k) % 65535 + 1

-- A free ID, or every ID of the rounds is used.
abbrev IsNextId : ℕ → ℕ → (ℕ → Bool) → Result ℕ → Type 0
IsNextId rounds counter used (ok tid) = IsFreeId used tid
IsNextId rounds counter used (raised e) =
    (e ≡ runtime_error) × ((k : ℕ) → k < rounds → used (id_at counter k) ≡ true)

id_at-step : (counter k : ℕ) → id_at (counter % 65535 + 1) k ≡ id_at counter (suc k)
unfolding id_at
id_at-step counter k = omega arith

next_transaction_id_loop_lem :
    (rounds counter : ℕ) (used : ℕ → Bool)
    → IsNextId rounds counter used (next_transaction_id_loop rounds counter used)
unfolding next_transaction_id_loop
next_transaction_id_loop_lem zero counter used = (refl, λ k h. absurd (omega arith))
next_transaction_id_loop_lem (suc rounds) counter used =
    elim (Bool-cases (used (counter % 65535 + 1))) [
      | inr free ↦ rw free (record { not_zero = omega arith; two_bytes = omega arith; free = free })
      | inl taken ↦ rw taken (
          widen (next_transaction_id_loop rounds (counter % 65535 + 1) used) taken
            (next_transaction_id_loop_lem rounds (counter % 65535 + 1) used))
    ]
  where
    round_used :
        used (counter % 65535 + 1) ≡ true
        → ((k : ℕ) → k < rounds → used (id_at (counter % 65535 + 1) k) ≡ true)
        → (k : ℕ) → k < suc rounds
        → used (id_at counter k) ≡ true
    round_used taken f zero h =
        unfold id_at in let e : counter + 0 ≡ counter = omega arith in rw e taken
    round_used taken f (suc k) h =
        let e : counter + suc k ≡ counter + (k + 1) = omega arith in
        ap used (sym (id_at-step counter k)) ∙ f k (omega arith)

    widen :
        (r : Result ℕ)
        → used (counter % 65535 + 1) ≡ true
        → IsNextId rounds (counter % 65535 + 1) used r
        → IsNextId (suc rounds) counter used r
    widen (ok tid) taken h = h
    widen (raised e) taken h = (h.0, round_used taken h.1)

-- What `_next_transaction_id` promises: a free ID of 16 bits that is not 0, or an error when every
-- such ID is pending.
abbrev pub IsTransactionId : (ℕ → Bool) → Result ℕ → Type 0
IsTransactionId used (ok tid) = IsFreeId used tid
IsTransactionId used (raised e) =
    (e ≡ runtime_error) × ((tid : ℕ) → 1 ≤ tid → tid ≤ 65535 → used tid ≡ true)

-- `_next_transaction_id` returns a transaction ID from 1 to 65535 that no pending request uses;
-- it raises RuntimeError only if every one of these is used, whatever its counter was.
pub next_transaction_id_lem :
    (counter : ℕ) (used : ℕ → Bool) → IsTransactionId used (next_transaction_id counter used)
unfolding next_transaction_id
next_transaction_id_lem counter used =
    all_ids (next_transaction_id_loop 65535 counter used)
      (next_transaction_id_loop_lem 65535 counter used)
  where
    all_ids : (r : Result ℕ) → IsNextId 65535 counter used r → IsTransactionId used r
    all_ids (ok tid) h = h
    all_ids (raised e) h = (
      h.0,
      λ tid low high.
          let k = (tid + 65534 - counter % 65535) % 65535 in
          let reached : id_at counter k ≡ tid = unfold id_at in omega arith in
          subst (λ t. used t ≡ true) reached (h.1 k (omega arith)),
    )
