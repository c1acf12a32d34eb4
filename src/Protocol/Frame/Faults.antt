-- ===== src/Protocol/Frame/Faults.antt =====
-- How `decode` of src/pyhems/frame.py fails: `_on_receive` catches FrameDecodeError alone.
use pyhems.Common.{
  ltb, ◌==◌, Bool-cases, Option-cases, length, drop, AllBytes, value_error, overflow_error,
  lookup_error, type_error, runtime_error, recursion_error, frame_decode_error, Result, ok, raised,
  ◌>>=◌, ℕ, zero, suc, ◌≡◌, refl, inl, inr, not, ◌||◌, List, [], ◌∷◌,
}
use pyhems.Protocol.Services.{esv_of_code}
use pyhems.Protocol.Objects
use pyhems.Protocol.Frame.{ehd1, ehd2, decode_properties, decode_esv, decode}

-- A failure of decoding is a FrameDecodeError.
abbrev pub OnlyDecodeFaults {ℓ} : {A : Type ℓ} → Result A → Type 0
OnlyDecodeFaults (ok a) = Unit
OnlyDecodeFaults (raised (frame_decode_error fault)) = Unit
OnlyDecodeFaults (raised _) = ⊥

bind-OnlyDecodeFaults {ℓ κ} :
    {A : Type ℓ} {B : Type κ} (m : Result A) (k : A → Result B)
    → OnlyDecodeFaults m
    → ((a : A) → OnlyDecodeFaults (k a))
    → OnlyDecodeFaults (m >>= k)
bind-OnlyDecodeFaults (ok a) k h g = g a
bind-OnlyDecodeFaults (raised (frame_decode_error fault)) k h g = tt
bind-OnlyDecodeFaults (raised value_error) k h g = h
bind-OnlyDecodeFaults (raised overflow_error) k h g = h
bind-OnlyDecodeFaults (raised lookup_error) k h g = h
bind-OnlyDecodeFaults (raised type_error) k h g = h
bind-OnlyDecodeFaults (raised runtime_error) k h g = h
bind-OnlyDecodeFaults (raised recursion_error) k h g = h

decode_properties-OnlyDecodeFaults :
    (opc : ℕ) (rest : List ℕ) → OnlyDecodeFaults (decode_properties opc rest)
unfolding decode_properties
decode_properties-OnlyDecodeFaults zero rest = tt
decode_properties-OnlyDecodeFaults (suc opc) [] = tt
decode_properties-OnlyDecodeFaults (suc opc) (epc ∷ []) = tt
decode_properties-OnlyDecodeFaults (suc opc) (epc ∷ pdc ∷ rest) =
    elim (Bool-cases (ltb (length rest) pdc)) [
      | inl missing ↦ rw missing tt
      | inr fits ↦ rw fits (
          bind-OnlyDecodeFaults (decode_properties opc (drop pdc rest)) _
            (decode_properties-OnlyDecodeFaults opc (drop pdc rest)) (λ ps. tt))
    ]

decode_esv-OnlyDecodeFaults : (n : ℕ) → OnlyDecodeFaults (decode_esv n)
unfolding decode_esv
decode_esv-OnlyDecodeFaults n = elim (Option-cases (esv_of_code n)) [
  | inl unknown ↦ rw (decode_esv, unknown) tt
  | inr (e, known) ↦ rw (decode_esv, known) tt
]

eoj-OnlyDecodeFaults :
    (bs : List ℕ) → AllBytes bs → length bs ≡ 3 → OnlyDecodeFaults (Objects.from_bytes bs)
eoj-OnlyDecodeFaults bs h e = rw ((Objects.from_bytes-eq-ok bs h e).0) tt

-- On any bytes, of any length, `decode` returns a frame or raises FrameDecodeError: no ValueError
-- of an EOJ, an ESV or an integer, and no index out of range, comes out of it.
pub decode-OnlyDecodeFaults :
    (received : List ℕ) → AllBytes received → OnlyDecodeFaults (decode received)
unfolding decode
decode-OnlyDecodeFaults (h1 ∷ h2 ∷ t1 ∷ t0 ∷ s2 ∷ s1 ∷ s0 ∷ d2 ∷ d1 ∷ d0 ∷ service ∷ opc ∷ rest) h =
    let b = h.1.1.1.1 in
    elim (Bool-cases (not (h1 == ehd1) || not (h2 == ehd2))) [
      | inl bad ↦ rw bad tt
      | inr good ↦ rw good (
          bind-OnlyDecodeFaults _ _
            (eoj-OnlyDecodeFaults (s2 ∷ s1 ∷ s0 ∷ []) (b.0, (b.1.0, (b.1.1.0, tt))) refl)
            λ seoj.
              bind-OnlyDecodeFaults _ _
                (eoj-OnlyDecodeFaults (d2 ∷ d1 ∷ d0 ∷ [])
                  (b.1.1.1.0, (b.1.1.1.1.0, (b.1.1.1.1.1.0, tt))) refl)
                λ deoj. bind-OnlyDecodeFaults _ _ (decode_esv-OnlyDecodeFaults service) λ esv.
                  bind-OnlyDecodeFaults _ _ (decode_properties-OnlyDecodeFaults opc rest)
                    (λ ps. tt))
    ]
decode-OnlyDecodeFaults _ h = tt
