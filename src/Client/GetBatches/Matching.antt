-- ===== src/Client/GetBatches/Matching.antt =====
-- What `_run_get_batches` (src/pyhems/runtime.py) takes from one response.
use pyhems.Common.{
  ◌==◌, ==_iff, Bool-cases, length, All, contains, ℕ_key, list_key, Dict, find, put, has_key,
  set_default, find-put, Distinct, contains_of_length, ℕ, suc, ◌≤◌, ◌≡◌, refl, sym, ap, ◌∙◌, inl,
  inr, true, false, List, [], ◌∷◌, arith,
}
use pyhems.Protocol.Frame.{Property}
use pyhems.Client.GetBatches.{
  Attempt, stopped, unsent, unanswered, raises, answered, match_properties, matched_of,
}

abbrev pub keys : Dict ℕ Property → List ℕ
keys [] = []
keys ((k, p) ∷ d) = k ∷ keys d

contains-keys : (d : Dict ℕ Property) (e : ℕ) → contains (keys d) e ≡ has_key d e
unfolding contains find
contains-keys [] e = refl
contains-keys ((k, p) ∷ d) e = ground (arith, contains-keys d e)

pub length-keys : (d : Dict ℕ Property) → length (keys d) ≡ length d
length-keys [] = refl
length-keys ((k, p) ∷ d) = ap suc (length-keys d)

module _ (Answered : ℕ → List ℕ → Type 0) where
  -- An item of the matched properties: its key is its EPC, in the batch, and the device gave it.
  abbrev pub IsMatch : List ℕ → ℕ × Property → Type 0
  IsMatch batch (k, p) = (p.epc ≡ k) × (contains batch k ≡ true) × Answered p.epc p.edt

  put_new :
      (batch : List ℕ) (d : Dict ℕ Property) (p : Property)
      → contains batch p.epc ≡ true
      → Answered p.epc p.edt
      → has_key d p.epc ≡ false
      → All (IsMatch batch) d
      → Distinct (keys d)
      → All (IsMatch batch) (put d p.epc p) × Distinct (keys (put d p.epc p))
  unfolding put find contains
  put_new batch [] p b a new all dist = (((refl, b, a), tt), (refl, tt))
  put_new batch ((k, q) ∷ d) p b a new all dist =
      let other : (k == p.epc) ≡ false = ground arith in
      let (all', dist') = put_new batch d p b a (ground (arith, other)) all.1 dist.1 in
      rw (put, other)
        (
          (all.0, all'),
          (
            ground (
              arith,
              contains-keys (put d p.epc p) k,
              contains-keys d k,
              find-put d p.epc k p,
              ==_iff p.epc k,
              dist.0,
            ),
            dist',
          ),
        )

  match_properties-IsMatch :
      (batch : List ℕ) (ps : List Property) (d : Dict ℕ Property)
      → All (λ p. Answered p.epc p.edt) ps
      → All (IsMatch batch) d
      → Distinct (keys d)
      → All (IsMatch batch) (match_properties batch ps d)
        × Distinct (keys (match_properties batch ps d))
  unfolding match_properties set_default
  match_properties-IsMatch batch [] d h all dist = (all, dist)
  match_properties-IsMatch batch (p ∷ ps) d h all dist = elim (Bool-cases (contains batch p.epc)) [
    | inr foreign ↦ rw foreign (match_properties-IsMatch batch ps d h.1 all dist)
    | inl wanted ↦ elim (Bool-cases (has_key d p.epc)) [
      | inl old ↦ rw (wanted, old) (match_properties-IsMatch batch ps d h.1 all dist)
      | inr new ↦
          let (all', dist') = put_new batch d p wanted h.0 new all dist in
          rw (wanted, new) (match_properties-IsMatch batch ps (put d p.epc p) h.1 all' dist')
    ]
  ]

  -- What an attempt matched was given by the device.
  abbrev pub Honest : Attempt → Type 0
  Honest (answered ps) = All (λ p. Answered p.epc p.edt) ps
  Honest _ = Unit

  pub matched_of-IsMatch :
      (batch : List ℕ) (a : Attempt)
      → Honest a
      → All (IsMatch batch) (matched_of batch a) × Distinct (keys (matched_of batch a))
  unfolding matched_of
  matched_of-IsMatch batch (answered ps) h = match_properties-IsMatch batch ps [] h tt tt
  matched_of-IsMatch batch stopped h = (tt, tt)
  matched_of-IsMatch batch unsent h = (tt, tt)
  matched_of-IsMatch batch (raises e) h = (tt, tt)
  matched_of-IsMatch batch unanswered h = (tt, tt)

  contains-match :
      (batch : List ℕ) (d : Dict ℕ Property)
      → All (IsMatch batch) d
      → (e : ℕ) → has_key d e ≡ true
      → contains batch e ≡ true
  unfolding find
  contains-match batch [] h e k = cc
  contains-match batch ((j, p) ∷ d) h e k =
      ground (arith, contains-match batch d h.1 e, ==_iff j e, h.0.1)

  -- As many matches as EPCs in a batch without duplicates: each EPC of the batch is matched.
  pub All-matched :
      (batch : List ℕ) (d : Dict ℕ Property)
      → All (IsMatch batch) d
      → Distinct (keys d)
      → length batch ≤ length d
      → (e : ℕ) → contains batch e ≡ true
      → has_key d e ≡ true
  All-matched batch d h dist l e m =
      sym (contains-keys d e)
      ∙ contains_of_length (keys d) batch dist
          (λ a k. contains-match batch d h a (sym (contains-keys d a) ∙ k))
          (omega (arith, length-keys d)) e m
