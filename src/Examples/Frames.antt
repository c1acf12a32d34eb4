-- ===== src/Examples/Frames.antt =====
-- Frames and EOJs at concrete inputs (src/pyhems/frame.py, src/pyhems/eoj.py).
use pyhems.Common.{
  ltb, &&_right, AllBytes, int_from_bytes, int_to_bytes, ok, ℕ_key, list_key, ℕ, ◌≡◌, refl, Bool,
  true, ◌&&◌, List, [], ◌∷◌, ◌++◌, arith,
}
use pyhems.Protocol.Services.{Esv, esv_code, esv_of_code}
use pyhems.Protocol.Objects.{Eoj, to_bytes, from_bytes}
use pyhems.Protocol.Frame.{Frame, decode, encode}
use pyhems.Protocol.Frame.RoundTrip.{IsFrame, decode-encode, encode-decode}
use pyhems.Protocol.Frame.Faults.{OnlyDecodeFaults, decode-OnlyDecodeFaults}

abbrev controller : Eoj
controller = record { value = 0x05FF01 }

abbrev air_conditioner : Eoj
air_conditioner = record { value = 0x013001 }

-- Read the operation status of an air conditioner, and write its mode.
abbrev sample_frame : Frame
sample_frame = record {
  seoj = controller;
  deoj = air_conditioner;
  esv = Esv.setc;
  tid = 0x0102;
  properties = record { epc = 0x80; edt = 0x30 ∷ [] } ∷ record { epc = 0xB0; edt = [] } ∷ [];
}

abbrev sample_bytes : List ℕ
sample_bytes =
    0x10 ∷ 0x81 ∷ 0x01 ∷ 0x02 ∷ 0x05 ∷ 0xFF ∷ 0x01 ∷ 0x01 ∷ 0x30 ∷ 0x01 ∷ 0x61 ∷ 2 ∷ 0x80 ∷ 1 ∷ 0x30
    ∷ 0xB0 ∷ 0 ∷ []

encode_test : encode sample_frame ≡ ok sample_bytes
unfolding encode int_to_bytes to_bytes esv_code
encode_test = refl

decode_test : decode (sample_bytes ++ 0xAA ∷ []) ≡ ok sample_frame
unfolding decode from_bytes int_from_bytes esv_of_code
decode_test = refl

sample_frame-IsFrame : IsFrame sample_frame
sample_frame-IsFrame = record {
  tid_fits = omega arith;
  seoj_fits = omega arith;
  deoj_fits = omega arith;
  few = omega arith;
  each = (
    record { epc_byte = omega arith; short = omega arith; edt_bytes = (omega arith, tt) },
    (record { epc_byte = omega arith; short = omega arith; edt_bytes = tt }, tt),
  );
}

decode-encode_example :
    (bytes : List ℕ) × (encode sample_frame ≡ ok bytes)
    × ((rest : List ℕ) → decode (bytes ++ rest) ≡ ok sample_frame)
decode-encode_example = decode-encode sample_frame sample_frame-IsFrame

are_bytes : List ℕ → Bool
are_bytes [] = true
are_bytes (b ∷ bs) = ltb b 256 && are_bytes bs

all_bytes : (bs : List ℕ) → are_bytes bs ≡ true → AllBytes bs
unfolding are_bytes
all_bytes [] h = tt
all_bytes (b ∷ bs) h = (ground arith, all_bytes bs (&&_right (ltb b 256) (are_bytes bs) h))

sample_bytes-AllBytes : AllBytes (sample_bytes ++ 0xAA ∷ [])
unfolding are_bytes
sample_bytes-AllBytes = all_bytes (sample_bytes ++ 0xAA ∷ []) refl

encode-decode_example :
    IsFrame sample_frame
    × ((bytes : List ℕ) × (rest : List ℕ) × (encode sample_frame ≡ ok bytes)
        × (sample_bytes ++ 0xAA ∷ [] ≡ bytes ++ rest))
encode-decode_example =
    encode-decode (sample_bytes ++ 0xAA ∷ []) sample_frame sample_bytes-AllBytes decode_test

decode-OnlyDecodeFaults_example : OnlyDecodeFaults (decode (sample_bytes ++ 0xAA ∷ []))
decode-OnlyDecodeFaults_example =
    decode-OnlyDecodeFaults (sample_bytes ++ 0xAA ∷ []) sample_bytes-AllBytes

from_bytes_test : from_bytes (0x05 ∷ 0xFF ∷ 0x01 ∷ []) ≡ ok controller
unfolding from_bytes int_from_bytes
from_bytes_test = refl
