-- ===== src/Client/Replies/Coverage.antt =====
-- Which requested EPCs the results of src/pyhems/runtime.py account for.
use pyhems.Common.{
  ◌==◌, ==_iff, Bool-cases, contains, difference, contains-nil, contains-cons,
  contains-intersection, contains-difference, ℕ_key, list_key, ℕ, ◌≡◌, refl, ◌⊎◌, inl, inr, Bool,
  true, false, not, ◌&&◌, List, [], ◌∷◌, map, arith,
}
use pyhems.Protocol.Services.{Esv, esv_code}
use pyhems.Protocol.Frame.{Property, Frame}
use pyhems.Client.Replies.{
  Exchange, stopped, not_sent, unanswered, answered, SetRequestResult, InfRequestResult,
  requested_epcs, epcs_where, has_value, no_set_response, read_set_response, after_exchange,
  set_properties, no_inf_response, read_inf_response, after_inf_exchange, request_notifications,
}

contains-epcs_where :
    (test : Property → Bool) (requested : List ℕ) (ps : List Property) (a : ℕ)
    → contains (epcs_where test requested ps) a ≡ true
    → contains requested a ≡ true
unfolding epcs_where
contains-epcs_where test requested [] a h = ground (arith, contains-nil a)
contains-epcs_where test requested (p ∷ ps) a h = ground (
  arith,
  contains-epcs_where test requested ps a,
  contains-cons p.epc (epcs_where test requested ps) a,
  ==_iff p.epc a,
)

-- Each set holds requested EPCs only, and the last one holds those that are in no other.
pub record Covers (requested accepted rejected unanswered : List ℕ) : Type 0 where
  pub accepted_requested : (a : ℕ) → contains accepted a ≡ true → contains requested a ≡ true
  pub rejected_requested : (a : ℕ) → contains rejected a ≡ true → contains requested a ≡ true
  pub rest_unanswered :
      (a : ℕ)
      → contains unanswered a
        ≡ (contains requested a && (not (contains accepted a) && not (contains rejected a)))

Covers-none : (requested : List ℕ) → Covers requested [] [] requested
Covers-none requested = record {
  accepted_requested = λ a h. ground (arith, contains-nil a);
  rejected_requested = λ a h. ground (arith, contains-nil a);
  rest_unanswered = λ a. ground (arith, contains-nil a);
}

Covers-all : (requested : List ℕ) → Covers requested requested [] []
Covers-all requested = record {
  accepted_requested = λ a h. h;
  rejected_requested = λ a h. ground (arith, contains-nil a);
  rest_unanswered = λ a. ground (arith, contains-nil a);
}

abbrev pub SetCovers : List ℕ → SetRequestResult → Type 0
SetCovers requested r = Covers requested r.accepted_epcs r.rejected_epcs r.unanswered_epcs

abbrev pub InfCovers : List ℕ → InfRequestResult → Type 0
InfCovers requested r = Covers requested r.notified_epcs r.inf_rejected_epcs r.inf_unanswered_epcs

read_set_response-Covers :
    (requested : List ℕ) (frame : Frame) → SetCovers requested (read_set_response requested frame)
unfolding read_set_response
read_set_response-Covers requested frame =
    elim (Bool-cases (esv_code frame.esv == esv_code Esv.set_res)) [
      | inl all ↦ rw all (Covers-all requested)
      | inr some_ ↦ rw some_ (record {
        accepted_requested =
            contains-epcs_where (λ p. not (has_value p)) requested frame.properties;
        rejected_requested = contains-epcs_where has_value requested frame.properties;
        rest_unanswered = λ a. ground (
          arith,
          contains-difference requested accepted a,
          contains-difference (difference requested accepted) rejected a,
        );
      })
    ]
  where
    accepted : List ℕ
    accepted = epcs_where (λ p. not (has_value p)) requested frame.properties

    rejected : List ℕ
    rejected = epcs_where has_value requested frame.properties

read_inf_response-Covers :
    (requested : List ℕ) (frame : Frame) → InfCovers requested (read_inf_response requested frame)
unfolding read_inf_response
read_inf_response-Covers requested frame =
    elim (Bool-cases (esv_code frame.esv == esv_code Esv.inf)) [
      | inl notified ↦ rw notified (record {
        accepted_requested = λ a h. ground (arith, contains-intersection responded requested a);
        rejected_requested = λ a h. ground (arith, contains-nil a);
        rest_unanswered = λ a. ground (
          arith,
          contains-intersection responded requested a,
          contains-difference requested responded a,
          contains-nil a,
        );
      })
      | inr refused ↦ rw refused (record {
        accepted_requested = λ a h. ground (arith, contains-nil a);
        rejected_requested = λ a h. ground (arith, contains-intersection responded requested a);
        rest_unanswered = λ a. ground (
          arith,
          contains-intersection responded requested a,
          contains-difference requested responded a,
          contains-nil a,
        );
      })
    ]
  where
    responded : List ℕ
    responded = map (λ p. p.epc) frame.properties

-- `set_properties` accounts for each EPC that it was to write, whatever its request came to: the
-- EPCs that it reports as unanswered are exactly the requested ones that it reports neither as
-- accepted nor as rejected, and it reports no EPC that was not requested.
pub set_properties-Covers :
    (reachable : Bool) (properties : List Property) (exchange : Exchange)
    → SetCovers (requested_epcs properties) (set_properties reachable properties exchange)
unfolding set_properties after_exchange no_set_response requested_epcs
set_properties-Covers reachable [] exchange = Covers-none []
set_properties-Covers false (p ∷ ps) exchange = Covers-none _
set_properties-Covers true (p ∷ ps) stopped = Covers-none _
set_properties-Covers true (p ∷ ps) not_sent = Covers-none _
set_properties-Covers true (p ∷ ps) unanswered = Covers-none _
set_properties-Covers true (p ∷ ps) (answered frame) = read_set_response-Covers _ frame

one_kind :
    (requested : List ℕ) (frame : Frame)
    → ((read_inf_response requested frame).notified_epcs ≡ [])
      ⊎ ((read_inf_response requested frame).inf_rejected_epcs ≡ [])
unfolding read_inf_response
one_kind requested frame = elim (Bool-cases (esv_code frame.esv == esv_code Esv.inf)) [
  | inl notified ↦ rw notified (inr refl)
  | inr refused ↦ rw refused (inl refl)
]

-- `request_notifications` accounts for each EPC too, and the EPCs that it reports as notified or as
-- rejected are of one kind: one of the two sets is empty.
pub request_notifications-Covers :
    (reachable : Bool) (epcs : List ℕ) (exchange : Exchange)
    → InfCovers epcs (request_notifications reachable epcs exchange)
      × (((request_notifications reachable epcs exchange).notified_epcs ≡ [])
          ⊎ ((request_notifications reachable epcs exchange).inf_rejected_epcs ≡ []))
unfolding request_notifications after_inf_exchange no_inf_response
request_notifications-Covers false epcs exchange = (Covers-none epcs, inl refl)
request_notifications-Covers true [] exchange = (Covers-none [], inl refl)
request_notifications-Covers true (e ∷ es) stopped = (Covers-none _, inl refl)
request_notifications-Covers true (e ∷ es) not_sent = (Covers-none _, inl refl)
request_notifications-Covers true (e ∷ es) unanswered = (Covers-none _, inl refl)
request_notifications-Covers true (e ∷ es) (answered frame) =
    (read_inf_response-Covers (e ∷ es) frame, one_kind (e ∷ es) frame)
