-- ===== src/Client/Reads/Values.antt =====
-- What a read of src/pyhems/runtime.py has received, as the list that its caller gets.
use pyhems.Protocol.Frame.{Property}
use pyhems.Client.GetBatches.{GetCapability, Attempt, stopped, unsent, unanswered, raises, answered}
use pyhems.Client.GetBatches.Matching.{Honest}
use pyhems.Client.Reads.{
  manufacturer_epc, CodeRead, code_read, code_property, with_code, after_code, property_of,
  properties_of,
}
use pyhems.Common.{
  leb, ◌==◌, ==_iff, Bool-cases, Option-cases, some_inj, length, All, contains, contains-cons,
  ℕ_key, list_key, Dict, find, has_key, ℕ, ◌≡◌, refl, subst, ◌⊎◌, inl, inr, true, ◌&&◌, none, some,
  List, [], ◌∷◌, arith,
}

-- The properties belong to the EPCs, one to each in order.
abbrev pub Each : (ℕ → Property → Type 0) → List ℕ → List Property → Type 0
Each Q [] [] = Unit
Each Q (e ∷ es) (p ∷ ps) = Q e p × Each Q es ps
Each Q _ _ = ⊥

pub Each-properties_of :
    (Q : ℕ → Property → Type 0) (received : Dict ℕ Property) (epcs : List ℕ)
    → ((e : ℕ) → contains epcs e ≡ true → Q e (property_of received e))
    → Each Q epcs (properties_of received epcs)
unfolding properties_of
Each-properties_of Q received [] h = tt
Each-properties_of Q received (e ∷ epcs) h = (
  h e (ground (arith, contains-cons e epcs e)),
  Each-properties_of Q received epcs (λ x k. h x (ground (arith, contains-cons e epcs x))),
)

module _ (Answered : ℕ → List ℕ → Type 0) where
  -- A property for the EPC with a value that the device gave.
  abbrev pub IsGiven : ℕ → Property → Type 0
  IsGiven e p = (p.epc ≡ e) × Answered e p.edt

  -- A property for the EPC that is empty, or has a value that the device gave.
  abbrev pub IsGivenOrEmpty : ℕ → Property → Type 0
  IsGivenOrEmpty e p = (p.epc ≡ e) × ((p.edt ≡ []) ⊎ Answered e p.edt)

  abbrev pub AllGiven : Dict ℕ Property → Type 0
  AllGiven received = (e : ℕ) (p : Property) → find received e ≡ some p → IsGiven e p

  pub property_of-IsGivenOrEmpty :
      (received : Dict ℕ Property) (e : ℕ)
      → AllGiven received
      → IsGivenOrEmpty e (property_of received e)
  unfolding property_of
  property_of-IsGivenOrEmpty received e h = elim (Option-cases (find received e)) [
    | inl missing ↦ rw (property_of, missing) (refl, inl refl)
    | inr (p, found) ↦ let given = h e p found in rw (property_of, found) (given.0, inr given.1)
  ]

  pub property_of-IsGiven :
      (received : Dict ℕ Property) (e : ℕ)
      → AllGiven received
      → (has_key received e ≡ true) ⊎ Answered e []
      → IsGiven e (property_of received e)
  unfolding property_of
  property_of-IsGiven received e h known = elim (Option-cases (find received e)) [
    | inr (p, found) ↦ rw (property_of, found) (h e p found)
    | inl missing ↦ rw (property_of, missing) (refl, or_empty known missing)
  ]
    where
      or_empty :
          (has_key received e ≡ true) ⊎ Answered e [] → find received e ≡ none → Answered e []
      or_empty (inl k) missing = let clash = rw missing at k in absurd cc
      or_empty (inr a) missing = a

  abbrev pub HasCode : CodeRead → Type 0
  HasCode (code_read p) = IsGiven manufacturer_epc p
  HasCode _ = Unit

  code_property-HasCode :
      (ps : List Property) (c : GetCapability)
      → All (λ p. Answered p.epc p.edt) ps
      → HasCode (with_code (code_property ps) c).0
  unfolding code_property with_code
  code_property-HasCode [] c h = tt
  code_property-HasCode (p ∷ ps) c h =
      elim (Bool-cases (p.epc == manufacturer_epc && leb 3 (length p.edt))) [
        | inr other ↦ rw other (code_property-HasCode ps c h.1)
        | inl hit ↦
            let same : p.epc ≡ manufacturer_epc = ground (arith, hit) in
            rw hit (same, subst (λ e. Answered e p.edt) same h.0)
      ]

  pub after_code-HasCode :
      (a : Attempt) (c : GetCapability) → Honest Answered a → HasCode (after_code a c).0
  unfolding after_code
  after_code-HasCode stopped c h = tt
  after_code-HasCode unsent c h = tt
  after_code-HasCode (raises e) c h = tt
  after_code-HasCode unanswered c h = tt
  after_code-HasCode (answered ps) c h = code_property-HasCode ps c h

  pub AllGiven-code :
      (p : Property) → IsGiven manufacturer_epc p → AllGiven ((manufacturer_epc, p) ∷ [])
  unfolding find
  AllGiven-code p h e q found = elim (Bool-cases (manufacturer_epc == e)) [
    | inr other ↦ let clash : none ≡ some q = rw other at found in absurd cc
    | inl hit ↦
        let same : manufacturer_epc ≡ e = (==_iff manufacturer_epc e).0 hit in
        subst (λ x. IsGiven x q) same
          (subst (IsGiven manufacturer_epc) (some_inj (rw hit at found)) h)
  ]

  pub AllGiven-nil : AllGiven []
  unfolding find
  AllGiven-nil e q found = cc
