-- ===== src/Client/GetBatches/Requests.antt =====
-- The requests that `_run_get_batches` (src/pyhems/runtime.py) sends.
use mathlib.Core.List.Perm
use pyhems.Common.{
  length, select, is_empty, contains, contains-append, contains-select, contains-Perm, ℕ_key,
  list_key, Dict, has_key, Distinct, Distinct-Perm, Distinct-left, Distinct-right, Distinct-select,
  ℕ, ◌<◌, ◌≡◌, sym, ◌∙◌, Bool, true, false, not, some, List, arith,
}
use pyhems.Protocol.Frame.{Property}
use pyhems.BatchPolicy.{get_get_batch_policy}
use pyhems.BatchPolicy.Progress.{Within, policy_size}
use pyhems.BatchPolicy.Split.{PolicyAllows}
use pyhems.Client.GetBatches.{
  GetCapability, Attempt, Outcome, Reading, Step, matched_of, halve, take_partial, take_whole,
  omitted_epcs, request_batch, batch_step, run_get_batches, without_duplicates,
}
use pyhems.Client.GetBatches.Cases.{after_response-cases, after_attempt-cases, batch_step-cases}
use pyhems.Client.GetBatches.Termination.{batch_rounds, batch_rounds_mono, Keeps, batch_loop_rule}
use pyhems.Client.GetBatches.Reads.{length-without_duplicates, without_duplicates_lem}

-- A batch that may be requested of a device of the class, in the light of what is known of it.
pub record IsAllowed (class_code : ℕ) (epcs : List ℕ) (c : GetCapability) (batch : List ℕ)
    : Type 0 where
  pub some_epc : 0 < length batch
  pub within_limit : Within (length batch) c.observed_batch_capacity
  pub within_policy :
      Within (length batch) (policy_size (get_get_batch_policy c.manufacturer_code class_code))
  pub compatible : PolicyAllows (get_get_batch_policy c.manufacturer_code class_code) batch
  pub wanted : (e : ℕ) → contains batch e ≡ true → contains epcs e ≡ true
  pub once : Distinct batch

module _ {W : Type 0} (attempt : W → GetCapability → List ℕ → Attempt × GetCapability × W)
    (probe : Bool) (class_code : ℕ) (epcs : List ℕ) (Inv : W → Type 0)
    (kept : (w : W) (c : GetCapability) (batch : List ℕ)
      → IsAllowed class_code epcs c batch
      → Inv w
      → Inv (attempt w c batch).2) where
  record IsSending (s : Reading W) : Type 0 where
    pub wanted : (e : ℕ) → contains s.queue e ≡ true → contains epcs e ≡ true
    pub distinct : Distinct s.queue
    pub inv : Inv s.world

  abbrev Sends : Step W → Type 0
  Sends = Keeps attempt probe class_code IsSending (λ _ s. Inv s.world)

  batch_step-Sends :
      (s : Reading W)
      → is_empty s.queue ≡ false
      → IsSending s
      → Sends (batch_step attempt probe class_code s)
  unfolding request_batch halve take_partial take_whole omitted_epcs
  batch_step-Sends s more r =
      batch_step-cases Sends attempt probe class_code s more (λ _. r.inv)
        λ batch rest p.
          let reply = attempt s.world s.capability batch in
          let s' = record s { capability = reply.1; world = reply.2 } in
          let matched = matched_of batch reply.0 in
          let both = λ (e : ℕ). contains-append batch rest e in
          let in_queue = λ (e : ℕ). contains-Perm e p.is_batch.nothing_lost in
          let parts = Distinct-Perm (Perm.symm p.is_batch.nothing_lost) r.distinct in
          let sent : Inv reply.2 =
            kept s.world s.capability batch
              (record {
                some_epc = p.some_epc;
                within_limit = p.within_limit;
                within_policy = p.is_batch.within_policy;
                compatible = p.is_batch.compatible;
                wanted = λ e m. r.wanted e (ground (arith, both e, in_queue e, m));
                once = Distinct-left batch rest parts;
              })
              r.inv in
          after_attempt-cases Sends probe _ batch rest s' p.some_epc reply.0 (λ _. sent) (λ _. sent)
            (λ _ _. sent)
            (after_response-cases Sends probe _ batch rest s' p.some_epc matched (λ _ _. sent)
              (λ _ _. record {
                wanted = λ e m. r.wanted e (sym (in_queue e) ∙ m);
                distinct = parts;
                inv = sent;
              })
              (λ _ _. record {
                wanted = λ e m. r.wanted e (
                    ground (
                      arith,
                      both e,
                      in_queue e,
                      m,
                      contains-append (select (λ e. not (has_key matched e)) batch) rest e,
                      contains-select (λ e. not (has_key matched e)) batch e,
                    ));
                distinct = Distinct-select (λ e. not (has_key matched e)) batch rest parts;
                inv = sent;
              })
              (λ _ _. record {
                wanted = λ e m. r.wanted e (ground (arith, both e, in_queue e, m));
                distinct = Distinct-right batch rest parts;
                inv = sent;
              }))

  -- Every request of a read is allowed: it has at least one EPC, requested ones only and none
  -- twice, is within the limit and the size of the policy known at the time, and has no two EPCs
  -- of an incompatible pair. So what each allowed request keeps of the network holds at the end.
  pub run_get_batches-keeps :
      (fuel : ℕ) (capability : GetCapability) (received : Dict ℕ Property) (world : W)
      → batch_rounds (length epcs) < fuel
      → Inv world
      → (outcome : Outcome) × (s : Reading W) × (run_get_batches attempt probe class_code fuel epcs
            capability received world
          ≡ some (outcome, s))
        × Inv s.world
  unfolding run_get_batches
  run_get_batches-keeps fuel capability received world h i =
      let (distinct, same) = without_duplicates_lem epcs in
      batch_loop_rule attempt probe class_code IsSending (λ _ s. Inv s.world) batch_step-Sends
        (λ s _ r. r.inv) fuel _
        (omega (
          arith,
          batch_rounds_mono (length (without_duplicates epcs)) (length epcs)
              (length-without_duplicates epcs),
        ))
        (record { wanted = λ e m. sym (same e) ∙ m; distinct = distinct; inv = i })
