-- ===== src/Client/Replies.antt =====
-- What `set_properties` and `request_notifications` of src/pyhems/runtime.py make of the reply to
-- their one request. What `_send_request` came to is an argument.
pub mod Coverage
use pyhems.Common.{
  ◌==◌, if◌then◌else◌, is_empty, contains, intersection, difference, ℕ_key, list_key, ℕ, Bool, true,
  false, not, ◌&&◌, ◌||◌, Option, none, some, List, [], ◌∷◌, map,
}
use pyhems.Protocol.Services.{Esv, esv_code}
use pyhems.Protocol.Frame.{Property, Frame}

-- The result of `_send_request`: the client was stopped, the datagram could not be sent, no
-- matching frame came in time, or one did.
pub data Exchange : Type 0 where
  stopped not_sent unanswered : Exchange
  answered : Frame → Exchange

-- SetRequestResult
pub record SetRequestResult : Type 0 where
  pub sent : Bool
  pub response_esv : Option Esv
  pub accepted_epcs : List ℕ
  pub rejected_epcs : List ℕ
  pub unanswered_epcs : List ℕ

-- InfRequestResult
pub record InfRequestResult : Type 0 where
  pub notified_epcs : List ℕ
  pub inf_rejected_epcs : List ℕ
  pub inf_unanswered_epcs : List ℕ

pub requested_epcs : List Property → List ℕ
requested_epcs properties = map (λ p. p.epc) properties

-- The loop over the properties of a response that is no Set_Res, for those with an empty or a
-- non-empty EDT.
pub epcs_where : (Property → Bool) → List ℕ → List Property → List ℕ
epcs_where test requested [] = []
epcs_where test requested (p ∷ ps) =
    let rest = epcs_where test requested ps in
    if contains requested p.epc && test p then p.epc ∷ rest else rest

pub has_value : Property → Bool
has_value p = not (is_empty p.edt)

pub no_set_response : Bool → List ℕ → SetRequestResult
no_set_response sent requested = record {
  sent = sent;
  response_esv = none;
  accepted_epcs = [];
  rejected_epcs = [];
  unanswered_epcs = requested;
}

pub read_set_response : List ℕ → Frame → SetRequestResult
unfolding epcs_where has_value
read_set_response requested frame =
    let accepted = epcs_where (λ p. not (has_value p)) requested frame.properties in
    let rejected = epcs_where has_value requested frame.properties in
    if esv_code frame.esv == esv_code Esv.set_res
    then record {
      sent = true;
      response_esv = some frame.esv;
      accepted_epcs = requested;
      rejected_epcs = [];
      unanswered_epcs = [];
    }
    else record {
      sent = true;
      response_esv = some frame.esv;
      accepted_epcs = accepted;
      rejected_epcs = rejected;
      unanswered_epcs = difference (difference requested accepted) rejected;
    }

-- The cases of `set_properties` after the request.
pub after_exchange : List ℕ → Exchange → SetRequestResult
unfolding no_set_response read_set_response
after_exchange requested stopped = no_set_response true requested
after_exchange requested not_sent = no_set_response false requested
after_exchange requested unanswered = no_set_response true requested
after_exchange requested (answered frame) = read_set_response requested frame

-- Whether the node has an address and the client is started is `reachable`.
unfoldable pub set_properties : Bool → List Property → Exchange → SetRequestResult
unfolding no_set_response after_exchange requested_epcs
set_properties reachable [] exchange = no_set_response false []
set_properties reachable (p ∷ ps) exchange =
    if reachable
    then after_exchange (requested_epcs (p ∷ ps)) exchange
    else no_set_response false (requested_epcs (p ∷ ps))

pub no_inf_response : List ℕ → InfRequestResult
no_inf_response requested = record {
  notified_epcs = [];
  inf_rejected_epcs = [];
  inf_unanswered_epcs = requested;
}

pub read_inf_response : List ℕ → Frame → InfRequestResult
read_inf_response requested frame =
    let responded = map (λ p. p.epc) frame.properties in
    if esv_code frame.esv == esv_code Esv.inf
    then record {
      notified_epcs = intersection responded requested;
      inf_rejected_epcs = [];
      inf_unanswered_epcs = difference requested responded;
    }
    else record {
      notified_epcs = [];
      inf_rejected_epcs = intersection responded requested;
      inf_unanswered_epcs = difference requested responded;
    }

pub after_inf_exchange : List ℕ → Exchange → InfRequestResult
unfolding no_inf_response read_inf_response
after_inf_exchange requested (answered frame) = read_inf_response requested frame
after_inf_exchange requested _ = no_inf_response requested

pub request_notifications : Bool → List ℕ → Exchange → InfRequestResult
unfolding no_inf_response after_inf_exchange
request_notifications reachable epcs exchange =
    if not reachable || is_empty epcs
    then no_inf_response epcs
    else after_inf_exchange epcs exchange
