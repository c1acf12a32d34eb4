-- ===== src/Examples/Messages.antt =====
-- Replies, transaction IDs and received frames at concrete inputs (src/pyhems/runtime.py).
use pyhems.Common.{
  ◌==◌, select, contains, ℕ_key, same_list, list_key, Dict, find, remove, ℕ, ◌≡◌, refl, ◌⊎◌, true,
  false, not, ◌&&◌, List, [], ◌∷◌, arith,
}
use pyhems.Protocol.Services.{Esv, esv_code}
use pyhems.Protocol.Objects.{Eoj, class_code, eoj_eq}
use pyhems.Protocol.Frame.{Property, Frame}
use pyhems.Client.TransactionId.{next_transaction_id, IsTransactionId, next_transaction_id_lem}
use pyhems.Client.Replies.{
  Exchange, answered, requested_epcs, set_properties, request_notifications,
}
use pyhems.Client.Replies.Coverage.{
  SetCovers, InfCovers, set_properties-Covers, request_notifications-Covers,
}
use pyhems.Client.Routing.{
  Routes, PendingRequest, answer_pending, is_request, route, acknowledge, deliver, matches_request,
  process_frame,
}
use pyhems.Client.Routing.Answers.{IsAnswered, pending_of, process_frame-IsAnswered}
use pyhems.Client.Routing.Bounds.{IsBounded, frames_of, process_frame-IsBounded}

abbrev air_conditioner : Eoj
air_conditioner = record { value = 0x013001 }

abbrev controller : Eoj
controller = record { value = 0x05FF01 }

abbrev reply : Esv → List Property → Frame
reply esv ps = record {
  seoj = air_conditioner;
  deoj = controller;
  esv = esv;
  tid = 7;
  properties = ps;
}

abbrev property : ℕ → List ℕ → Property
property epc edt = record { epc = epc; edt = edt }

-- The device accepts the first of two writes and rejects the second one.
abbrev writes : List Property
writes = property 0x80 (0x30 ∷ []) ∷ property 0xB0 (0x41 ∷ []) ∷ []

abbrev half_accepted : Exchange
half_accepted = answered (reply Esv.setc_sna (property 0x80 [] ∷ property 0xB0 (0x41 ∷ []) ∷ []))

set_properties_test :
    ((set_properties true writes half_accepted).accepted_epcs ≡ 0x80 ∷ [])
    × ((set_properties true writes half_accepted).rejected_epcs ≡ 0xB0 ∷ [])
unfolding set_properties esv_code contains
set_properties_test = (refl, refl)

set_properties-Covers_example :
    SetCovers (requested_epcs writes) (set_properties true writes half_accepted)
set_properties-Covers_example = set_properties-Covers true writes half_accepted

request_notifications-Covers_example :
    InfCovers (0x80 ∷ 0xB0 ∷ []) (
      request_notifications true
        (0x80 ∷ 0xB0 ∷ [])
        (answered (reply Esv.inf (property 0x80 (0x30 ∷ []) ∷ []))))
    × (((request_notifications true
            (0x80 ∷ 0xB0 ∷ [])
            (answered (reply Esv.inf (property 0x80 (0x30 ∷ []) ∷ [])))).notified_epcs
          ≡ [])
        ⊎ ((request_notifications true
              (0x80 ∷ 0xB0 ∷ [])
              (answered (reply Esv.inf (property 0x80 (0x30 ∷ []) ∷ [])))).inf_rejected_epcs
            ≡ []))
request_notifications-Covers_example =
    request_notifications-Covers true (0x80 ∷ 0xB0 ∷ [])
      (answered (reply Esv.inf (property 0x80 (0x30 ∷ []) ∷ [])))

-- The counter is at its end, and the first ID is pending.
next_transaction_id_lem_example :
    IsTransactionId (λ tid. tid == 1) (next_transaction_id 65535 (λ tid. tid == 1))
next_transaction_id_lem_example = next_transaction_id_lem 65535 (λ tid. tid == 1)

-- A mapping that drops what has the same address or the same node ID.
abbrev forceput : Dict (List ℕ) (List ℕ) → List ℕ → List ℕ → Dict (List ℕ) (List ℕ)
forceput d address node_id =
    (address, node_id) ∷ select (λ (a, n). not (same_list a address) && not (same_list n node_id)) d

abbrev no_routes : Routes
no_routes = record {
  pending = [];
  device_addresses = [];
  pending_frames = [];
  discovery_tasks = [];
  get_capabilities = [];
}

no_frames-IsBounded : IsBounded []
unfolding find
no_frames-IsBounded = record { addresses = omega arith; frames = λ a fs e. cc }

-- A notification from an address that nobody knows.
process_frame-IsBounded_example : IsBounded (
    frames_of (
      process_frame forceput 5
        (reply Esv.inf (property 0x80 (0x30 ∷ []) ∷ []))
        (49 ∷ [])
        no_routes))
process_frame-IsBounded_example =
    process_frame-IsBounded forceput 5 (reply Esv.inf (property 0x80 (0x30 ∷ []) ∷ [])) (49 ∷ [])
      no_routes no_frames-IsBounded

-- A read of the air conditioner is pending, and its response comes.
abbrev read_request : PendingRequest
read_request = record {
  address = 49 ∷ [];
  deoj = air_conditioner;
  seoj = controller;
  response_esvs = 0x72 ∷ 0x52 ∷ [];
  future_done = false;
}

abbrev waiting_routes : Routes
waiting_routes = record no_routes { pending = (7, read_request) ∷ [] }

abbrev response : Frame
response = reply Esv.get_res (property 0x80 (0x30 ∷ []) ∷ [])

process_frame_test : pending_of (process_frame forceput 5 response (49 ∷ []) waiting_routes) ≡ []
unfolding process_frame is_request route esv_code class_code acknowledge deliver find answer_pending
    contains matches_request same_list eoj_eq remove
process_frame_test = refl

process_frame-IsAnswered_example :
    IsAnswered waiting_routes response
      (49 ∷ [])
      (pending_of (process_frame forceput 5 response (49 ∷ []) waiting_routes))
process_frame-IsAnswered_example =
    process_frame-IsAnswered forceput 5 response (49 ∷ []) waiting_routes
