-- ===== src/Client/GetBatches/Cases.antt =====
-- The ways through one round of `_run_get_batches` (src/pyhems/runtime.py).
use pyhems.Common.{
  ltb, ◌==◌, ltb→lt, Bool-cases, is_some, length, is_empty, length-append, Exception, length-Perm,
  contains-length, ℕ_key, list_key, Dict, ℕ, ◌+◌, ◌≤◌, ◌<◌, ◌≡◌, refl, sym, ◌∙◌, ◌⊎◌, inl, inr,
  Bool, true, false, not, ◌&&◌, ◌||◌, Option, none, some, List, [], ◌∷◌, arith,
}
use pyhems.Protocol.Frame.{Property}
use pyhems.BatchPolicy.{get_get_batch_policy}
use pyhems.BatchPolicy.Progress.{IsBatch, Within, take_first_batch_lem}
use pyhems.Client.GetBatches.{
  GetCapability, invalid_capacity, batch_size, request_batch, batch_step, Attempt, stopped, unsent,
  unanswered, raises, answered, request_raised, Reading, Step, continue, leave, aborted,
  client_stopped, matched_of, halve, take_partial, take_whole, all_empty, is_none, after_response,
  after_attempt,
}

-- Whether a whole batch fixes the limit.
abbrev pub learns : {W : Type 0} → Bool → Option ℕ → List ℕ → Reading W → Bool
learns probe limit batch s =
    probe && (is_some s.probe_size || (is_none limit && ltb 1 (length batch)))

module _ {κ} {W : Type 0} (P : Step W → Type κ) (probe : Bool) (limit : Option ℕ)
    (batch rest : List ℕ) (s : Reading W) (some_epc : 0 < length batch) where
  pub after_response-cases :
      (matched : Dict ℕ Property)
      → (is_empty matched ≡ true → (probe ≡ false) ⊎ (length batch ≡ 1) → P (leave aborted s))
      → (probe ≡ true → 1 < length batch → P (continue (halve batch rest s)))
      → (is_empty matched ≡ false
          → length matched < length batch
          → P (continue (take_partial probe batch rest matched s)))
      → (is_empty matched ≡ false
          → length batch ≤ length matched
          → P (continue (take_whole (learns probe limit batch s) batch rest matched s)))
      → P (after_response probe limit batch rest matched s)
  unfolding after_response
  after_response-cases matched gives_up halves partial whole =
      elim (Bool-cases (is_empty matched)) [
        | inl none_matched ↦ elim (Bool-cases (not probe || length batch == 1)) [
          | inl stop ↦ rw (none_matched, stop) (gives_up none_matched (ground arith))
          | inr retry ↦ rw (none_matched, retry) (halves (ground arith) (ground (arith, some_epc)))
        ]
        | inr matches ↦ elim (Bool-cases (ltb (length matched) (length batch))) [
          | inl few ↦ rw (matches, few) (partial matches (ltb→lt _ _ few))
          | inr all ↦
              let enough : length batch ≤ length matched = ground arith in
              elim (Bool-cases
                (probe && all_empty matched && is_none limit && ltb 1 (length batch))) [
                  | inl empty ↦ rw (matches, all, empty) (halves (ground arith) (ground arith))
                  | inr values ↦ rw (matches, all, values) (whole matches enough)
                ]
        ]
      ]

  -- The same by the result of the request.
  pub after_attempt-cases :
      (a : Attempt)
      → (a ≡ stopped → P (leave client_stopped s))
      → (a ≡ unsent → P (leave aborted s))
      → ((e : Exception) → a ≡ raises e → P (leave (request_raised e) s))
      → P (after_response probe limit batch rest (matched_of batch a) s)
      → P (after_attempt probe limit batch rest a s)
  unfolding after_attempt
  after_attempt-cases stopped x y f z = x refl
  after_attempt-cases unsent x y f z = y refl
  after_attempt-cases (raises e) x y f z = f e refl
  after_attempt-cases unanswered x y f z = z
  after_attempt-cases (answered ps) x y f z = z

Within-batch_size :
    (limit probe_size : Option ℕ) (n : ℕ)
    → Within n (batch_size limit probe_size)
    → Within n limit × Within n probe_size
unfolding batch_size
Within-batch_size limit none n h = (h, tt)
Within-batch_size none (some size) n h = (tt, h)
Within-batch_size (some l) (some size) n h = (omega arith, omega arith)

-- What the planned batch and its remainder are, before the request.
pub record Planned {W : Type 0} (class_code : ℕ) (s : Reading W) (batch rest : List ℕ)
    : Type 0 where
  pub is_batch :
      IsBatch s.queue
        (get_get_batch_policy s.capability.manufacturer_code class_code)
        (batch_size s.capability.observed_batch_capacity s.probe_size)
        batch
        rest
  pub some_epc : 0 < length batch
  pub within_limit : Within (length batch) s.capability.observed_batch_capacity
  pub within_probe : Within (length batch) s.probe_size
  pub whole : length batch + length rest ≡ length s.queue

module _ {κ} {W : Type 0} (P : Step W → Type κ)
    (attempt : W → GetCapability → List ℕ → Attempt × GetCapability × W) (probe : Bool)
    (class_code : ℕ) (s : Reading W) (more : is_empty s.queue ≡ false) where
  planned :
      (batch rest : List ℕ)
      → IsBatch s.queue
          (get_get_batch_policy s.capability.manufacturer_code class_code)
          (batch_size s.capability.observed_batch_capacity s.probe_size)
          batch
          rest
      → Planned class_code s batch rest
  planned batch rest b =
      let bounds =
        Within-batch_size s.capability.observed_batch_capacity s.probe_size _ b.within_observed in
      record {
        is_batch = b;
        some_epc = first s.queue refl more;
        within_limit = bounds.0;
        within_probe = bounds.1;
        whole = sym (length-append batch rest) ∙ length-Perm b.nothing_lost;
      }
    where
      first : (queue : List ℕ) → s.queue ≡ queue → is_empty queue ≡ false → 0 < length batch
      first [] e h = cc
      first (epc ∷ others) e h = contains-length batch epc (b.takes_first epc others e)

  -- One round plans a batch and requests it, unless the limit is zero.
  pub batch_step-cases :
      (batch_size s.capability.observed_batch_capacity s.probe_size ≡ some 0
        → P (leave invalid_capacity s))
      → ((batch rest : List ℕ)
          → Planned class_code s batch rest
          → P (
              request_batch attempt probe class_code s.capability.observed_batch_capacity batch rest
                s))
      → P (batch_step attempt probe class_code s)
  unfolding batch_step
  batch_step-cases rejected requested =
      elim (take_first_batch_lem s.queue s.capability.manufacturer_code class_code
        (batch_size s.capability.observed_batch_capacity s.probe_size)) [
          | inl (zero_size, e) ↦ rw (e, batch_step) (rejected zero_size)
          | inr (batch, rest, e, b) ↦
              rw (e, batch_step) (requested batch rest (planned batch rest b))
        ]
