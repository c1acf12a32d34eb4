-- ===== src/Protocol/Frame.antt =====
-- ECHONET Lite frames, src/pyhems/frame.py. What is left of the received data at the loop's
-- `offset` is the list that a function is given.
pub mod RoundTrip
pub mod Faults
use pyhems.Common.{
  ltb, ◌==◌, if◌then◌else◌, length, take, drop, int_from_bytes, int_to_bytes, too_short,
  invalid_header, unknown_esv, incomplete_header, incomplete_data, value_error, frame_decode_error,
  Result, ok, raised, ◌>>=◌, ℕ_key, list_key, ℕ, zero, suc, ◌+◌, Bool, true, false, not, ◌||◌, none,
  some, List, [], ◌∷◌, ◌++◌,
}
use pyhems.Protocol.Services.{
  Esv, seti_sna, setc_sna, get_sna, inf_sna, setget_sna, set_res, get_res, inf, infc, infc_res,
  setget_res, esv_code, esv_of_code,
}
use pyhems.Protocol.Objects
use pyhems.Protocol.Objects.{Eoj}

pub record Property : Type 0 where
  pub epc : ℕ
  pub edt : List ℕ

pub pdc : Property → ℕ
pdc p = length p.edt

pub record Frame : Type 0 where
  pub seoj : Eoj
  pub deoj : Eoj
  pub esv : Esv
  pub tid : ℕ
  pub properties : List Property

abbrev pub ehd1 : ℕ
ehd1 = 0x10

abbrev pub ehd2 : ℕ
ehd2 = 0x81

-- Whether the service is a response or a notification.
pub esv_is_response : Esv → Bool
esv_is_response setget_res = true
esv_is_response set_res = true
esv_is_response get_res = true
esv_is_response inf = true
esv_is_response infc = true
esv_is_response infc_res = true
esv_is_response seti_sna = true
esv_is_response setc_sna = true
esv_is_response get_sna = true
esv_is_response inf_sna = true
esv_is_response setget_sna = true
esv_is_response _ = false

unfoldable pub is_response_or_notification : Frame → Bool
unfolding esv_is_response
is_response_or_notification f = esv_is_response f.esv

-- The loop of `decode` over `opc` properties.
pub decode_properties : ℕ → List ℕ → Result (List Property)
decode_properties zero rest = ok []
decode_properties (suc opc) [] = raised (frame_decode_error incomplete_header)
decode_properties (suc opc) (epc ∷ []) = raised (frame_decode_error incomplete_header)
decode_properties (suc opc) (epc ∷ pdc ∷ rest) =
    let tail = decode_properties opc (drop pdc rest) in
    if ltb (length rest) pdc
    then raised (frame_decode_error incomplete_data)
    else tail >>= λ ps. ok (record { epc = epc; edt = take pdc rest } ∷ ps)

-- `ESV(data[10])`, with its ValueError turned into a FrameDecodeError.
pub decode_esv : ℕ → Result Esv
decode_esv n = elim (esv_of_code n) [
  | none ↦ raised (frame_decode_error unknown_esv)
  | some e ↦ ok e
]

-- Fewer than 12 bytes fall to the last clause.
unfoldable pub decode : List ℕ → Result Frame
unfolding decode_properties decode_esv
decode (h1 ∷ h2 ∷ t1 ∷ t0 ∷ s2 ∷ s1 ∷ s0 ∷ d2 ∷ d1 ∷ d0 ∷ service ∷ opc ∷ rest) =
    if not (h1 == ehd1) || not (h2 == ehd2) then raised (frame_decode_error invalid_header) else do
      let tid = int_from_bytes (t1 ∷ t0 ∷ [])
      seoj ← Objects.from_bytes (s2 ∷ s1 ∷ s0 ∷ [])
      deoj ← Objects.from_bytes (d2 ∷ d1 ∷ d0 ∷ [])
      esv ← decode_esv service
      properties ← decode_properties opc rest
      ok (record { seoj = seoj; deoj = deoj; esv = esv; tid = tid; properties = properties })
decode _ = raised (frame_decode_error too_short)

-- bytearray.append(n), as the bytes that it adds.
pub append_byte : ℕ → Result (List ℕ)
append_byte n = if ltb n 256 then ok (n ∷ []) else raised value_error

-- The loop of `encode` over the properties.
pub encode_properties : List Property → Result (List ℕ)
unfolding append_byte pdc
encode_properties [] = ok []
encode_properties (p ∷ ps) = append_byte p.epc >>= λ epc. append_byte (pdc p) >>= λ count.
    encode_properties ps >>= λ rest. ok (epc ++ (count ++ (p.edt ++ rest)))

unfoldable pub encode : Frame → Result (List ℕ)
unfolding append_byte encode_properties
encode f = do
  tid ← int_to_bytes 2 f.tid
  seoj ← Objects.to_bytes f.seoj
  deoj ← Objects.to_bytes f.deoj
  opc ← append_byte (length f.properties)
  properties ← encode_properties f.properties
  ok (ehd1 ∷ ehd2 ∷ tid ++ (seoj ++ (deoj ++ (esv_code f.esv ∷ opc ++ properties))))
