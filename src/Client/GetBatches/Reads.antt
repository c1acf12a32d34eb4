-- ===== src/Client/GetBatches/Reads.antt =====
-- What `_run_get_batches` (src/pyhems/runtime.py) has read when it ends.
use pyhems.Common.{
  ◌==◌, ==_iff, Bool-cases, length, select, is_empty, length-select, All, contains, contains-cons,
  contains-append, contains-select, contains-is_empty, contains-Perm, ℕ_key, list_key, Dict,
  has_key, Distinct, Distinct-Perm, Distinct-right, Distinct-select, ℕ, ◌≤◌, ◌<◌, ◌≡◌, refl, sym,
  ◌∙◌, ◌⊎◌, inl, inr, Bool, true, false, not, ◌||◌, some, List, [], ◌∷◌, ◌++◌, append-nil, arith,
}
use pyhems.Protocol.Frame.{Property}
use mathlib.Core.List.{Perm}
use mathlib.Core.List.Perm
use pyhems.Client.GetBatches.{
  GetCapability, Attempt, Outcome, finished, Reading, Step, matched_of, omitted_epcs, halve,
  take_partial, take_whole, update_received, without_duplicates, request_batch, batch_step,
  run_get_batches,
}
use pyhems.Client.GetBatches.Cases.{after_response-cases, after_attempt-cases, batch_step-cases}
use pyhems.Client.GetBatches.Matching.{IsMatch, Honest, matched_of-IsMatch, All-matched, keys}
use pyhems.Client.GetBatches.Values.{
  HasValues, IsRead, update_received-HasValues, update_received_keeps, update_received-IsRead,
}
use pyhems.Client.GetBatches.Termination.{batch_rounds, batch_rounds_mono, Keeps, batch_loop_rule}

pub without_duplicates_lem :
    (es : List ℕ)
    → Distinct (without_duplicates es)
      × ((e : ℕ) → contains (without_duplicates es) e ≡ contains es e)
unfolding without_duplicates
without_duplicates_lem [] = (tt, λ e. refl)
without_duplicates_lem (x ∷ es) =
    let (d, h) = without_duplicates_lem es in
    let kept = λ (a : ℕ). not (x == a) in
    (
      (
        ground (arith, contains-select kept (without_duplicates es) x, ==_iff x x),
        rw append-nil at (Distinct-select kept (without_duplicates es) [] (rw append-nil d)),
      ),
      λ e. ground (
        arith,
        contains-cons x (select kept (without_duplicates es)) e,
        contains-cons x es e,
        contains-select kept (without_duplicates es) e,
        h e,
      ),
    )

pub length-without_duplicates : (es : List ℕ) → length (without_duplicates es) ≤ length es
unfolding without_duplicates
length-without_duplicates [] = omega arith
length-without_duplicates (e ∷ es) =
    omega (
      arith,
      length-without_duplicates es,
      length-select (λ x. not (e == x)) (without_duplicates es),
    )

module _ {W : Type 0} (Answered : ℕ → List ℕ → Type 0) (epcs : List ℕ)
    (before : Dict ℕ Property) where
  record IsReading (s : Reading W) : Type 0 where
    pub distinct : Distinct s.queue
    pub wanted : (e : ℕ) → contains s.queue e ≡ true → contains epcs e ≡ true
    pub values : HasValues Answered epcs before s.received
    pub kept : (e : ℕ) → has_key before e ≡ true → has_key s.received e ≡ true
    pub covered :
        (e : ℕ)
        → contains epcs e ≡ true
        → (contains s.queue e ≡ true) ⊎ IsRead Answered epcs before s.received e

  -- What a call has read when it ends: at every end the values are the device's, and on a return
  -- every requested EPC has been answered and the EPCs from before still have values.
  abbrev pub IsReadResult : Outcome → Reading W → Type 0
  IsReadResult finished s =
      HasValues Answered epcs before s.received
      × ((e : ℕ) → contains epcs e ≡ true → IsRead Answered epcs before s.received e)
      × ((e : ℕ) → has_key before e ≡ true → has_key s.received e ≡ true)
  IsReadResult _ s = HasValues Answered epcs before s.received

  module _ (batch rest : List ℕ) (s : Reading W) (split : Perm (batch ++ rest) s.queue)
      (matched : Dict ℕ Property) (good : All (IsMatch Answered batch) matched)
      (r : IsReading s) where
    in_queue : (e : ℕ) → (contains batch e || contains rest e) ≡ contains s.queue e
    in_queue e = sym (contains-append batch rest e) ∙ contains-Perm e split

    Distinct-parts : Distinct (batch ++ rest)
    Distinct-parts = Distinct-Perm (Perm.symm split) r.distinct

    new_values : HasValues Answered epcs before (update_received s.received matched)
    new_values =
        update_received-HasValues Answered epcs before batch matched s.received
          (λ e m. r.wanted e (ground (arith, in_queue e))) good r.values

    halve-IsReading : IsReading (halve batch rest s)
    unfolding halve
    halve-IsReading = record {
      distinct = Distinct-parts;
      wanted = λ e m. r.wanted e (sym (contains-Perm e split) ∙ m);
      values = r.values;
      kept = r.kept;
      covered =
          λ e m. elim (r.covered e m) [ inl q ↦ inl (contains-Perm e split ∙ q) | inr d ↦ inr d ];
    }

    -- What was read stays read.
    still-IsRead :
        (e : ℕ)
        → IsRead Answered epcs before s.received e
        → IsRead Answered epcs before (update_received s.received matched) e
    still-IsRead e (inl k) = inl (update_received_keeps Answered epcs before matched s.received e k)
    still-IsRead e (inr a) = inr a

    take_partial-IsReading : (probe : Bool) → IsReading (take_partial probe batch rest matched s)
    unfolding take_partial omitted_epcs
    take_partial-IsReading probe = record {
      distinct = Distinct-select (λ e. not (has_key matched e)) batch rest Distinct-parts;
      wanted = λ e m. r.wanted e (
          ground (
            arith,
            m,
            contains-append (select (λ e. not (has_key matched e)) batch) rest e,
            contains-select (λ e. not (has_key matched e)) batch e,
            in_queue e,
          ));
      values = new_values;
      kept = λ e k. update_received_keeps Answered epcs before matched s.received e (r.kept e k);
      covered = λ e m. elim (r.covered e m) [
        | inl q ↦ elim (Bool-cases (has_key matched e)) [
          | inl hit ↦
              inr (update_received-IsRead Answered epcs before batch matched s.received e good hit)
          | inr miss ↦ inl (
              ground (
                arith,
                q,
                miss,
                contains-append (select (λ e. not (has_key matched e)) batch) rest e,
                contains-select (λ e. not (has_key matched e)) batch e,
                in_queue e,
              ))
        ]
        | inr d ↦ inr (still-IsRead e d)
      ];
    }

    take_whole-IsReading :
        (learns : Bool)
        → Distinct (keys matched)
        → length batch ≤ length matched
        → IsReading (take_whole learns batch rest matched s)
    unfolding take_whole
    take_whole-IsReading learns dist enough = record {
      distinct = Distinct-right batch rest Distinct-parts;
      wanted = λ e m. r.wanted e (ground (arith, m, in_queue e));
      values = new_values;
      kept = λ e k. update_received_keeps Answered epcs before matched s.received e (r.kept e k);
      covered = λ e m. elim (r.covered e m) [
        | inl q ↦ elim (Bool-cases (contains batch e)) [
          | inl asked ↦ inr (
              update_received-IsRead Answered epcs before batch matched s.received e good
                (All-matched Answered batch matched good dist enough e asked))
          | inr other ↦ inl (ground (arith, q, other, in_queue e))
        ]
        | inr d ↦ inr (still-IsRead e d)
      ];
    }

module _ {W : Type 0} (attempt : W → GetCapability → List ℕ → Attempt × GetCapability × W)
    (probe : Bool) (class_code : ℕ) (Answered : ℕ → List ℕ → Type 0)
    (honest : (w : W) (c : GetCapability) (batch : List ℕ) → Honest Answered (attempt w c batch).0)
    (epcs : List ℕ) (before : Dict ℕ Property) where
  abbrev Reads : Step W → Type 0
  Reads =
      Keeps attempt probe class_code (IsReading Answered epcs before)
        (IsReadResult Answered epcs before)

  batch_step-Reads :
      (s : Reading W)
      → is_empty s.queue ≡ false
      → IsReading Answered epcs before s
      → Reads (batch_step attempt probe class_code s)
  unfolding request_batch
  batch_step-Reads s more r =
      batch_step-cases Reads attempt probe class_code s more (λ _. r.values)
        λ batch rest p.
          let reply = attempt s.world s.capability batch in
          let s' = record s { capability = reply.1; world = reply.2 } in
          let (good, dist) =
            matched_of-IsMatch Answered batch reply.0 (honest s.world s.capability batch) in
          let r' : IsReading Answered epcs before s' = record {
            distinct = r.distinct;
            wanted = r.wanted;
            values = r.values;
            kept = r.kept;
            covered = r.covered;
          } in
          let split = p.is_batch.nothing_lost in
          after_attempt-cases Reads probe _ batch rest s' p.some_epc reply.0 (λ _. r.values)
            (λ _. r.values) (λ _ _. r.values)
            (after_response-cases Reads probe _ batch rest s' p.some_epc (matched_of batch reply.0)
              (λ _ _. r.values)
              (λ _ _. halve-IsReading Answered epcs before batch rest s' split _ good r')
              (λ _ _.
                take_partial-IsReading Answered epcs before batch rest s' split _ good r' probe)
              (λ _ enough.
                take_whole-IsReading Answered epcs before batch rest s' split _ good r' _ dist
                  enough))

  -- Whatever the device and the other calls do, a read of `epcs` ends. The values that it hands
  -- over are those that were there before and values, not empty, that the device gave for
  -- requested EPCs. If it returns, every requested EPC has a value or was answered empty, and every
  -- EPC that had a value before has one.
  -- The hypothesis says what "the device gave it" means: a property in a response.
  pub run_get_batches-IsReadResult :
      (fuel : ℕ) (capability : GetCapability) (world : W)
      → batch_rounds (length epcs) < fuel
      → (outcome : Outcome) × (s : Reading W) × (run_get_batches attempt probe class_code fuel epcs
            capability before world
          ≡ some (outcome, s))
        × IsReadResult Answered epcs before outcome s
  unfolding run_get_batches
  run_get_batches-IsReadResult fuel capability world h =
      let (distinct, same) = without_duplicates_lem epcs in
      batch_loop_rule attempt probe class_code (IsReading Answered epcs before)
        (IsReadResult Answered epcs before) batch_step-Reads
        (λ s empty r. (
          r.values,
          (λ e m. all_read s e (contains-is_empty s.queue e empty) (r.covered e m)),
          r.kept,
        ))
        fuel _
        (omega (
          arith,
          batch_rounds_mono (length (without_duplicates epcs)) (length epcs)
              (length-without_duplicates epcs),
        ))
        (record {
          distinct = distinct;
          wanted = λ e m. sym (same e) ∙ m;
          values = λ e p found. inl found;
          kept = λ e k. k;
          covered = λ e m. inl (same e ∙ m);
        })
    where
      all_read :
          (s : Reading W) (e : ℕ)
          → contains s.queue e ≡ false
          → (contains s.queue e ≡ true) ⊎ IsRead Answered epcs before s.received e
          → IsRead Answered epcs before s.received e
      all_read s e gone (inl q) = let clash = gone in cc
      all_read s e gone (inr d) = d
