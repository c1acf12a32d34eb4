-- ===== src/Protocol/Frame/RoundTrip.antt =====
-- `decode` and `encode` of src/pyhems/frame.py are inverse to each other.
use pyhems.Common.{
  ltb, ◌==◌, lt→ltb, Bool-cases, Option-cases, ltb-eq-false, length, take, drop, length-append,
  take-append-drop, take-append, drop-append, length-take_of_le, All, All-take, All-drop, AllBytes,
  int_from_bytes, digits_be, int_from_bytes-digits_be, digits_be-int_from_bytes, int_from_bytes-lt,
  int_to_bytes-eq-ok, Result, ok, raised, ◌>>=◌, ℕ, zero, suc, ◌<◌, ◌≡◌, refl, sym, ap, ◌∙◌, subst,
  inl, inr, false, not, ◌||◌, List, [], ◌∷◌, ◌++◌, append_assoc, arith,
}
use pyhems.Protocol.Services.{
  Esv, esv_code, esv_of_code, esv_of_code-esv_code, esv_code-esv_of_code,
}
use pyhems.Protocol.Objects
use pyhems.Protocol.Objects.{Eoj, IsEoj}
use pyhems.Protocol.Frame.{
  Property, Frame, pdc, ehd1, ehd2, decode_properties, decode_esv, decode, append_byte,
  encode_properties, encode,
}

-- A property whose EPC is a byte and whose EDT is at most 255 bytes.
pub record IsProperty (p : Property) : Type 0 where
  pub epc_byte : p.epc < 256
  pub short : length p.edt < 256
  pub edt_bytes : AllBytes p.edt

-- A frame that fits the format: two bytes of TID and at most 255 properties.
pub record IsFrame (f : Frame) : Type 0 where
  pub tid_fits : f.tid < 65536
  pub seoj_fits : IsEoj f.seoj
  pub deoj_fits : IsEoj f.deoj
  pub few : length f.properties < 256
  pub each : All IsProperty f.properties

property_bytes : List Property → List ℕ
property_bytes [] = []
property_bytes (p ∷ ps) = p.epc ∷ length p.edt ∷ (p.edt ++ property_bytes ps)

frame_bytes : Frame → List ℕ
frame_bytes f =
    ehd1 ∷ ehd2 ∷ digits_be 2 f.tid
    ++ (digits_be 3 f.seoj.value
        ++ (digits_be 3 f.deoj.value
            ++ (esv_code f.esv ∷ length f.properties ∷ property_bytes f.properties)))

append_byte-eq-ok : (n : ℕ) → n < 256 → append_byte n ≡ ok (n ∷ [])
unfolding append_byte
append_byte-eq-ok n h = rw (lt→ltb n 256 h)

encode_properties-eq-ok :
    (ps : List Property) → All IsProperty ps → encode_properties ps ≡ ok (property_bytes ps)
unfolding encode_properties property_bytes pdc
encode_properties-eq-ok [] h = refl
encode_properties-eq-ok (p ∷ ps) h = rw (
  lt→ltb p.epc 256 h.0.epc_byte,
  lt→ltb (length p.edt) 256 h.0.short,
  encode_properties-eq-ok ps h.1,
)

encode-eq-ok : (f : Frame) → IsFrame f → encode f ≡ ok (frame_bytes f)
unfolding encode frame_bytes
encode-eq-ok f h = rw (
  int_to_bytes-eq-ok 2 f.tid h.tid_fits,
  Objects.to_bytes_lem f.seoj h.seoj_fits,
  Objects.to_bytes_lem f.deoj h.deoj_fits,
  lt→ltb (length f.properties) 256 h.few,
  encode_properties-eq-ok f.properties h.each,
)

decode_properties-property_bytes :
    (ps : List Property) (rest : List ℕ)
    → decode_properties (length ps) (property_bytes ps ++ rest) ≡ ok ps
unfolding decode_properties property_bytes
decode_properties-property_bytes [] rest = refl
decode_properties-property_bytes (p ∷ ps) rest =
    let tail = property_bytes ps ++ rest in
    let fits : ltb (length (p.edt ++ tail)) (length p.edt) ≡ false =
      ltb-eq-false _ _ (omega (arith, length-append p.edt tail)) in
    rw (
      append_assoc p.edt (property_bytes ps) rest,
      fits,
      drop-append p.edt tail,
      take-append p.edt tail,
      decode_properties-property_bytes ps rest,
    )

decode_esv-esv_code : (e : Esv) → decode_esv (esv_code e) ≡ ok e
unfolding decode_esv
decode_esv-esv_code e = rw (decode_esv, esv_of_code-esv_code)

decode-frame_bytes : (f : Frame) (rest : List ℕ) → IsFrame f → decode (frame_bytes f ++ rest) ≡ ok f
unfolding decode frame_bytes digits_be
decode-frame_bytes f rest h = rw (
  int_from_bytes-digits_be 2 f.tid h.tid_fits,
  Objects.from_bytes-digits_be f.seoj h.seoj_fits,
  Objects.from_bytes-digits_be f.deoj h.deoj_fits,
  decode_esv-esv_code f.esv,
  decode_properties-property_bytes f.properties rest,
)

-- Every frame that fits the format is encoded, and the bytes, followed by any others, are decoded
-- to the frame again.
pub decode-encode :
    (f : Frame)
    → IsFrame f
    → (bytes : List ℕ) × (encode f ≡ ok bytes) × ((rest : List ℕ) → decode (bytes ++ rest) ≡ ok f)
decode-encode f h = (frame_bytes f, encode-eq-ok f h, λ rest. decode-frame_bytes f rest h)

-- Inversion of a successful bind.
bind-eq-ok {ℓ κ} :
    {A : Type ℓ} {B : Type κ} (m : Result A) (k : A → Result B) {b : B}
    → (m >>= k) ≡ ok b
    → (a : A) × (m ≡ ok a) × (k a ≡ ok b)
bind-eq-ok (ok a) k h = (a, refl, h)
bind-eq-ok (raised e) k h = cc

decode_properties-inv :
    (opc : ℕ) (data_left : List ℕ) (ps : List Property)
    → AllBytes data_left
    → decode_properties opc data_left ≡ ok ps
    → (rest : List ℕ) × (data_left ≡ property_bytes ps ++ rest)
      × (length ps ≡ opc)
      × All IsProperty ps
unfolding decode_properties property_bytes
decode_properties-inv zero d ps h e =
    let none_left : [] ≡ ps = ground arith in
    (d, rw (← none_left), ap length (sym none_left), subst (All IsProperty) none_left tt)
decode_properties-inv (suc opc) [] ps h e = cc
decode_properties-inv (suc opc) (epc ∷ []) ps h e = cc
decode_properties-inv (suc opc) (epc ∷ count ∷ d) ps h e =
    elim (Bool-cases (ltb (length d) count)) [
      | inl missing ↦ let clash = rw missing at e in cc
      | inr fits ↦
          let (tail, t, k) = bind-eq-ok (decode_properties opc (drop count d)) _ (rw fits at e) in
          let (rest, split, counted, good) =
            decode_properties-inv opc (drop count d) tail (All-drop (λ b. b < 256) count d h.1.1)
              t in
          let first : Property = record { epc = epc; edt = take count d } in
          let whole : ps ≡ first ∷ tail = ground arith in
          let size : length (take count d) ≡ count = length-take_of_le count d (ground arith) in
          (
            rest,
            rw (whole, size, append_assoc (take count d) (property_bytes tail) rest, ← split)
                (ap (λ (t : List ℕ). epc ∷ count ∷ t) (sym (take-append-drop count d))),
            rw whole (ap suc counted),
            subst (All IsProperty) (sym whole) (
              record {
                epc_byte = h.0;
                short = omega (arith, size, h.1.0);
                edt_bytes = All-take (λ b. b < 256) count d h.1.1;
              },
              good,
            ),
          )
    ]

decode_esv-inv : (n : ℕ) (e : Esv) → decode_esv n ≡ ok e → esv_code e ≡ n
unfolding decode_esv
decode_esv-inv n e h = elim (Option-cases (esv_of_code n)) [
  | inl unknown ↦ let clash = rw (unknown, decode_esv) at h in cc
  | inr (e', known) ↦
      let same : e' ≡ e = let r = rw (known, decode_esv) at h in ground arith in
      rw (← same) (esv_code-esv_of_code n e' known)
]

ok-injective {ℓ} : {A : Type ℓ} {a b : A} → ok a ≡ ok b → a ≡ b
ok-injective r = ground arith

-- The bytes of an object identifier that was read.
eoj_bytes :
    (bs : List ℕ) (e : Eoj)
    → AllBytes bs
    → length bs ≡ 3
    → Objects.from_bytes bs ≡ ok e
    → IsEoj e × (digits_be 3 e.value ≡ bs)
eoj_bytes bs e h l p =
    let (written, small) = Objects.to_bytes-from_bytes bs e h l p in
    (small, ok-injective (sym (Objects.to_bytes_lem e small) ∙ written))

Encoded : List ℕ → Frame → Type 0
Encoded received f =
    IsFrame f
    × ((bytes : List ℕ) × (rest : List ℕ) × (encode f ≡ ok bytes) × (received ≡ bytes ++ rest))

Encoded-frame :
    (received rest : List ℕ) (f : Frame)
    → IsFrame f
    → received ≡ frame_bytes f ++ rest
    → Encoded received f
unfolding Encoded
Encoded-frame received rest f good e = (good, (frame_bytes f, rest, encode-eq-ok f good, e))

from_parts :
    (t1 t0 s2 s1 s0 d2 d1 d0 service opc : ℕ) (rest : List ℕ) (seoj deoj : Eoj) (esv : Esv)
    (ps : List Property)
    → AllBytes (t1 ∷ t0 ∷ s2 ∷ s1 ∷ s0 ∷ d2 ∷ d1 ∷ d0 ∷ service ∷ opc ∷ rest)
    → Objects.from_bytes (s2 ∷ s1 ∷ s0 ∷ []) ≡ ok seoj
    → Objects.from_bytes (d2 ∷ d1 ∷ d0 ∷ []) ≡ ok deoj
    → decode_esv service ≡ ok esv
    → decode_properties opc rest ≡ ok ps
    → Encoded (ehd1 ∷ ehd2 ∷ t1 ∷ t0 ∷ s2 ∷ s1 ∷ s0 ∷ d2 ∷ d1 ∷ d0 ∷ service ∷ opc ∷ rest) (record {
      seoj = seoj;
      deoj = deoj;
      esv = esv;
      tid = int_from_bytes (t1 ∷ t0 ∷ []);
      properties = ps;
    })
unfolding frame_bytes
from_parts t1 t0 s2 s1 s0 d2 d1 d0 service opc rest seoj deoj esv ps h es ed ee ep =
    let tid_bytes : AllBytes (t1 ∷ t0 ∷ []) = (h.0, (h.1.0, tt)) in
    let s = eoj_bytes (s2 ∷ s1 ∷ s0 ∷ []) seoj (h.1.1.0, (h.1.1.1.0, (h.1.1.1.1.0, tt))) refl es in
    let h' = h.1.1.1.1.1 in
    let d = eoj_bytes (d2 ∷ d1 ∷ d0 ∷ []) deoj (h'.0, (h'.1.0, (h'.1.1.0, tt))) refl ed in
    let (left, split, counted, each) = decode_properties-inv opc rest ps h'.1.1.1.1.1 ep in
    Encoded-frame _ left _
      (record {
        tid_fits = int_from_bytes-lt (t1 ∷ t0 ∷ []) tid_bytes;
        seoj_fits = s.0;
        deoj_fits = d.0;
        few = rw counted h'.1.1.1.1.0;
        each = each;
      })
      (rw (
        digits_be-int_from_bytes (t1 ∷ t0 ∷ []) 2 tid_bytes refl,
        s.1,
        d.1,
        decode_esv-inv service esv ee,
        counted,
        split,
      ))

-- Whatever bytes are decoded to a frame, the frame fits the format, and its encoding is the bytes
-- that were read: what is left over in the datagram follows them.
pub encode-decode :
    (received : List ℕ) (f : Frame)
    → AllBytes received
    → decode received ≡ ok f
    → IsFrame f
      × ((bytes : List ℕ) × (rest : List ℕ) × (encode f ≡ ok bytes) × (received ≡ bytes ++ rest))
unfolding decode Encoded frame_bytes
encode-decode (h1 ∷ h2 ∷ t1 ∷ t0 ∷ s2 ∷ s1 ∷ s0 ∷ d2 ∷ d1 ∷ d0 ∷ service ∷ opc ∷ rest) f h e =
    elim (Bool-cases (not (h1 == ehd1) || not (h2 == ehd2))) [
      | inl bad ↦ let clash = rw bad at e in cc
      | inr good ↦
          let b = h.1.1 in
          let (seoj, es, k1) =
            bind-eq-ok (Objects.from_bytes (s2 ∷ s1 ∷ s0 ∷ [])) _ (rw good at e) in
          let (deoj, ed, k2) = bind-eq-ok (Objects.from_bytes (d2 ∷ d1 ∷ d0 ∷ [])) _ k1 in
          let (esv, ee, k3) = bind-eq-ok (decode_esv service) _ k2 in
          let (ps, ep, k4) = bind-eq-ok (decode_properties opc rest) _ k3 in
          let e1 : h1 ≡ ehd1 = ground (arith, good) in
          let e2 : h2 ≡ ehd2 = ground (arith, good) in
          rw (e1, e2)
            (subst (Encoded _) (ok-injective k4)
              (from_parts t1 t0 s2 s1 s0 d2 d1 d0 service opc rest seoj deoj esv ps b es ed ee ep))
    ]
encode-decode _ f h e = cc
