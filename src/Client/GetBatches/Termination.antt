-- ===== src/Client/GetBatches/Termination.antt =====
-- The loop of `_run_get_batches` (src/pyhems/runtime.py) ends, whatever the network answers.
use pyhems.Common.{
  ◌==◌, if◌then◌else◌, ==_iff, Bool-cases, length, is_empty, length-append, contains, ℕ_key,
  list_key, Dict, find, has_key, set_default, find-set_default, length-select_lt, ℕ, zero, suc, ◌+◌,
  ◌≤◌, ◌<◌, ◌≡◌, refl, ◌∙◌, inl, inr, Bool, true, false, not, Option, none, some, List, [], ◌∷◌,
  ◌++◌, arith,
}
use pyhems.BatchPolicy.Progress.{Within}
use pyhems.Protocol.Frame.{Property}
use pyhems.Client.GetBatches.Cases.{after_response-cases, after_attempt-cases, batch_step-cases}
use pyhems.Client.GetBatches.{
  GetCapability, Attempt, stopped, unsent, unanswered, raises, answered, Outcome, Reading, Step,
  continue, leave, finished, match_properties, matched_of, omitted_epcs, halve, take_partial,
  take_whole, after_response, after_attempt, request_batch, batch_step, batch_loop,
}

-- Rounds that are enough while `q` EPCs are left: an EPC is read, or the probe size falls.
abbrev pub rounds : ℕ → ℕ
rounds zero = 0
rounds (suc q) = rounds q + q + 3

abbrev probe_rounds : Option ℕ → ℕ → ℕ
probe_rounds none q = q + 1
probe_rounds (some size) q = size

module _ {W : Type 0} where
  abbrev rounds_left : Reading W → ℕ
  rounds_left s = rounds (length s.queue) + probe_rounds s.probe_size (length s.queue)

  -- The loop goes on from a state with fewer rounds left, or ends.
  abbrev Decreases : ℕ → Step W → Type 0
  Decreases n (continue s) = rounds_left s < n
  Decreases n (leave outcome s) = Unit

rounds_mono : (p q : ℕ) → p < q → rounds p + p + 3 ≤ rounds q
rounds_mono p zero h = absurd (omega arith)
rounds_mono p (suc q) h = elim (Bool-cases (p == q)) [
  | inl e ↦ ground arith
  | inr d ↦ omega (arith, rounds_mono p q (ground arith))
]

-- Rounds that are enough to read `n` EPCs.
abbrev pub batch_rounds : ℕ → ℕ
batch_rounds n = rounds n + n + 1

pub batch_rounds_mono : (p q : ℕ) → p ≤ q → batch_rounds p ≤ batch_rounds q
batch_rounds_mono p q h = elim (Bool-cases (p == q)) [
  | inl e ↦ ground arith
  | inr d ↦ omega (arith, rounds_mono p q (ground arith))
]

probe_rounds_mono :
    (o : Option ℕ) (p q : ℕ) → p < q → rounds p + probe_rounds o p < rounds q + probe_rounds o q
probe_rounds_mono none p q h = omega (arith, rounds_mono p q h)
probe_rounds_mono (some size) p q h = omega (arith, rounds_mono p q h)

probe_rounds_room : (o : Option ℕ) (n q : ℕ) → Within n o → n ≤ q → n ≤ probe_rounds o q
probe_rounds_room none n q w h = omega arith
probe_rounds_room (some size) n q w h = w

rounds_shrink :
    (reset : Bool) (o : Option ℕ) (p q : ℕ)
    → p < q
    → rounds p + probe_rounds (if reset then none else o) p < rounds q + probe_rounds o q
rounds_shrink true o p q h = omega (arith, rounds_mono p q h)
rounds_shrink false o p q h = probe_rounds_mono o p q h

find-nil : (e : ℕ) → find {V = Property} [] e ≡ none
unfolding find
find-nil e = refl

-- Every key of the matched properties is an EPC of the batch.
match_properties-contains :
    (batch : List ℕ) (ps : List Property) (matched : Dict ℕ Property)
    → ((e : ℕ) → has_key matched e ≡ true → contains batch e ≡ true)
    → (e : ℕ) → has_key (match_properties batch ps matched) e ≡ true
    → contains batch e ≡ true
unfolding match_properties
match_properties-contains batch [] matched h e k = h e k
match_properties-contains batch (p ∷ ps) matched h e k =
    match_properties-contains batch ps _ keep e k
  where
    keep :
        (j : ℕ)
        → has_key (if contains batch p.epc then set_default matched p.epc p else matched) j ≡ true
        → contains batch j ≡ true
    keep j r = ground (arith, find-set_default matched p.epc j p, h j, ==_iff p.epc j)

matched_of-contains :
    (batch : List ℕ) (a : Attempt) (e : ℕ)
    → has_key (matched_of batch a) e ≡ true
    → contains batch e ≡ true
unfolding matched_of
matched_of-contains batch (answered ps) e h =
    match_properties-contains batch ps [] (λ j k. let none_found = find-nil j in cc) e h
matched_of-contains batch stopped e h = let none_found = find-nil e in cc
matched_of-contains batch unsent e h = let none_found = find-nil e in cc
matched_of-contains batch (raises x) e h = let none_found = find-nil e in cc
matched_of-contains batch unanswered e h = let none_found = find-nil e in cc

-- Some EPC of the batch is among the matched ones, if there are any.
some_matched :
    (batch : List ℕ) (matched : Dict ℕ Property)
    → ((e : ℕ) → has_key matched e ≡ true → contains batch e ≡ true)
    → is_empty matched ≡ false
    → (e : ℕ) × (contains batch e ≡ true) × (has_key matched e ≡ true)
unfolding find
some_matched batch [] h e = cc
some_matched batch ((k, p) ∷ matched) h e = (k, h k found, found)
  where
    found : has_key ((k, p) ∷ matched) k ≡ true
    found = ground arith

length-omitted_epcs :
    (batch : List ℕ) (matched : Dict ℕ Property)
    → ((e : ℕ) → has_key matched e ≡ true → contains batch e ≡ true)
    → is_empty matched ≡ false
    → length (omitted_epcs batch matched) < length batch
unfolding omitted_epcs
length-omitted_epcs batch matched h e =
    let (k, inside, found) = some_matched batch matched h e in
    length-select_lt (λ a. not (has_key matched a)) batch k inside (ground (arith, found))

module _ {W : Type 0} (batch rest : List ℕ) (s : Reading W) (q : ℕ)
    (whole : length batch + length rest ≡ q) (some_epc : 0 < length batch)
    (within : Within (length batch) s.probe_size) where
  abbrev left : ℕ
  left = rounds q + probe_rounds s.probe_size q

  halve-Decreases : 1 < length batch → Decreases left (continue (halve batch rest s))
  unfolding halve
  halve-Decreases h =
      let same : length (batch ++ rest) ≡ q = length-append batch rest ∙ whole in
      rw same (omega (arith, probe_rounds_room s.probe_size (length batch) q within (omega arith)))

  take_partial-Decreases :
      (probe : Bool) (matched : Dict ℕ Property)
      → ((e : ℕ) → has_key matched e ≡ true → contains batch e ≡ true)
      → is_empty matched ≡ false
      → Decreases left (continue (take_partial probe batch rest matched s))
  unfolding take_partial
  take_partial-Decreases probe matched h e = rounds_shrink probe s.probe_size _ q (
      omega (
        arith,
        length-append (omitted_epcs batch matched) rest,
        length-omitted_epcs batch matched h e,
      ))

  take_whole-Decreases :
      (learns : Bool) (matched : Dict ℕ Property)
      → Decreases left (continue (take_whole learns batch rest matched s))
  unfolding take_whole
  take_whole-Decreases learns matched =
      rounds_shrink learns s.probe_size (length rest) q (omega arith)

  after_response-Decreases :
      (probe : Bool) (limit : Option ℕ) (matched : Dict ℕ Property)
      → ((e : ℕ) → has_key matched e ≡ true → contains batch e ≡ true)
      → Decreases left (after_response probe limit batch rest matched s)
  after_response-Decreases probe limit matched h =
      after_response-cases (Decreases left) probe limit batch rest s some_epc matched (λ _ _. tt)
        (λ _ many. halve-Decreases many)
        (λ matches _. take_partial-Decreases probe matched h matches)
        (λ _ _. take_whole-Decreases _ matched)

  after_attempt-Decreases :
      (probe : Bool) (limit : Option ℕ) (a : Attempt)
      → Decreases left (after_attempt probe limit batch rest a s)
  after_attempt-Decreases probe limit a =
      after_attempt-cases (Decreases left) probe limit batch rest s some_epc a (λ _. tt) (λ _. tt)
        (λ _ _. tt)
        (after_response-Decreases probe limit (matched_of batch a) (matched_of-contains batch a))

module _ {W : Type 0} (attempt : W → GetCapability → List ℕ → Attempt × GetCapability × W)
    (probe : Bool) (class_code : ℕ) where
  batch_step-Decreases :
      (s : Reading W)
      → is_empty s.queue ≡ false
      → Decreases (rounds_left s) (batch_step attempt probe class_code s)
  unfolding request_batch
  batch_step-Decreases s more =
      batch_step-cases (Decreases (rounds_left s)) attempt probe class_code s more (λ _. tt)
        λ batch rest p.
          after_attempt-Decreases batch rest _ (length s.queue) p.whole p.some_epc p.within_probe
            probe _ _

  -- What a round leaves behind: the invariant if the loop goes on, or the result's condition.
  abbrev pub Keeps : (Reading W → Type 0) → (Outcome → Reading W → Type 0) → Step W → Type 0
  Keeps I Q (continue s) = I s
  Keeps I Q (leave outcome s) = Q outcome s

  -- With enough fuel the loop ends, and what its rounds keep holds of the result.
  pub batch_loop_rule :
      (I : Reading W → Type 0) (Q : Outcome → Reading W → Type 0)
      → ((s : Reading W)
          → is_empty s.queue ≡ false
          → I s
          → Keeps I Q (batch_step attempt probe class_code s))
      → ((s : Reading W) → is_empty s.queue ≡ true → I s → Q finished s)
      → (fuel : ℕ) (s : Reading W) → rounds_left s < fuel
      → I s
      → (outcome : Outcome) × (s' : Reading W) × (batch_loop attempt probe class_code fuel s
          ≡ some (outcome, s'))
        × Q outcome s'
  unfolding batch_loop
  batch_loop_rule I Q keep done zero s h i = absurd (omega arith)
  batch_loop_rule I Q keep done (suc fuel) s h i = elim (Bool-cases (is_empty s.queue)) [
    | inl empty ↦ (finished, s, rw (empty, batch_loop), done s empty i)
    | inr more ↦
        next (batch_step attempt probe class_code s) refl more (keep s more i)
          (batch_step-Decreases s more) (batch_loop_rule I Q keep done fuel)
  ]
    where
      Ends : ℕ → Reading W → Type 0
      Ends n t =
          (outcome : Outcome) × (s' : Reading W) × (batch_loop attempt probe class_code n t
            ≡ some (outcome, s'))
          × Q outcome s'

      next :
          (st : Step W)
          → batch_step attempt probe class_code s ≡ st
          → is_empty s.queue ≡ false
          → Keeps I Q st
          → Decreases (rounds_left s) st
          → ((t : Reading W) → rounds_left t < fuel → I t → Ends fuel t)
          → Ends (suc fuel) s
      next (continue t) e more k d ih =
          let (outcome, s', r, q) = ih t (omega arith) k in
          (outcome, s', rw (batch_loop, more, e) r, q)
      next (leave outcome t) e more k d ih = (outcome, t, rw (batch_loop, more, e), k)
