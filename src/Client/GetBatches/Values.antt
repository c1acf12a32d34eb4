-- ===== src/Client/GetBatches/Values.antt =====
-- The values that `_run_get_batches` (src/pyhems/runtime.py) hands to its caller.
use pyhems.Common.{
  ◌==◌, Bool-cases, is_empty, All, contains, ℕ_key, list_key, Dict, find, put, has_key, find-put, ℕ,
  ◌≡◌, refl, ◌∙◌, subst, ◌⊎◌, inl, inr, true, false, some, List, [], ◌∷◌, arith,
}
use pyhems.Protocol.Frame.{Property}
use pyhems.Client.GetBatches.{update_received}
use pyhems.Client.GetBatches.Matching.{IsMatch}

is_empty-nil : (bs : List ℕ) → is_empty bs ≡ true → bs ≡ []
is_empty-nil [] h = refl
is_empty-nil (b ∷ bs) h = cc

module _ (Answered : ℕ → List ℕ → Type 0) (epcs : List ℕ) (before : Dict ℕ Property) where
  -- A value that was there before the call, or a value that the device gave for a requested EPC.
  abbrev pub IsValue : ℕ → Property → Type 0
  IsValue e p =
      (find before e ≡ some p)
      ⊎ ((p.epc ≡ e) × (is_empty p.edt ≡ false) × (contains epcs e ≡ true) × Answered e p.edt)

  abbrev pub HasValues : Dict ℕ Property → Type 0
  HasValues received = (e : ℕ) (p : Property) → find received e ≡ some p → IsValue e p

  put-HasValues :
      (received : Dict ℕ Property) (k : ℕ) (q : Property)
      → IsValue k q
      → HasValues received
      → HasValues (put received k q)
  put-HasValues received k q v h e p found = elim (Bool-cases (k == e)) [
    | inl hit ↦
        let same_epc : k ≡ e = ground (arith, hit) in
        let same_value : q ≡ p = ground (arith, find-put received k e q, found, hit) in
        subst (λ x. IsValue e x) same_value (subst (λ x. IsValue x q) same_epc v)
    | inr miss ↦ h e p (ground (arith, find-put received k e q, found, miss))
  ]

  pub update_received-HasValues :
      (batch : List ℕ) (matched received : Dict ℕ Property)
      → ((e : ℕ) → contains batch e ≡ true → contains epcs e ≡ true)
      → All (IsMatch Answered batch) matched
      → HasValues received
      → HasValues (update_received received matched)
  unfolding update_received
  update_received-HasValues batch [] received within all h = h
  update_received-HasValues batch ((k, q) ∷ matched) received within all h =
      elim (Bool-cases (is_empty q.edt)) [
        | inl empty ↦ rw empty (update_received-HasValues batch matched received within all.1 h)
        | inr full ↦ rw full (
            update_received-HasValues batch matched (put received k q) within all.1 (
              put-HasValues received k q
                (inr
                  (all.0.0, full, within k all.0.1, subst (λ x. Answered x q.edt) all.0.0 all.0.2))
                h))
      ]

  -- The EPC is in the dictionary, or the device answered it with an empty value.
  abbrev pub IsRead : Dict ℕ Property → ℕ → Type 0
  IsRead received e = (has_key received e ≡ true) ⊎ Answered e []

  has_key-put :
      (received : Dict ℕ Property) (k e : ℕ) (q : Property)
      → has_key received e ≡ true
      → has_key (put received k q) e ≡ true
  has_key-put received k e q h = ground (arith, find-put received k e q)

  pub update_received_keeps :
      (matched received : Dict ℕ Property) (e : ℕ)
      → has_key received e ≡ true
      → has_key (update_received received matched) e ≡ true
  unfolding update_received
  update_received_keeps [] received e h = h
  update_received_keeps ((k, q) ∷ matched) received e h = elim (Bool-cases (is_empty q.edt)) [
    | inl empty ↦ rw empty (update_received_keeps matched received e h)
    | inr full ↦
        rw full (update_received_keeps matched (put received k q) e (has_key-put received k e q h))
  ]

  pub update_received-IsRead :
      (batch : List ℕ) (matched received : Dict ℕ Property) (e : ℕ)
      → All (IsMatch Answered batch) matched
      → has_key matched e ≡ true
      → IsRead (update_received received matched) e
  unfolding update_received find
  update_received-IsRead batch [] received e all h = cc
  update_received-IsRead batch ((k, q) ∷ matched) received e all h = elim (Bool-cases (k == e)) [
    | inl hit ↦ elim (Bool-cases (is_empty q.edt)) [
      | inl empty ↦ inr (
          subst (λ x. Answered e x) (is_empty-nil q.edt empty)
            (subst (λ x. Answered x q.edt) (all.0.0 ∙ ground (arith, hit)) all.0.2))
      | inr full ↦ inl (
          rw full (
            update_received_keeps matched (put received k q) e
              (ground (arith, find-put received k e q, hit))))
    ]
    | inr miss ↦
        let later : has_key matched e ≡ true = rw miss at h in
        elim (Bool-cases (is_empty q.edt)) [
          | inl empty ↦ rw empty (update_received-IsRead batch matched received e all.1 later)
          | inr full ↦
              rw full (update_received-IsRead batch matched (put received k q) e all.1 later)
        ]
  ]
