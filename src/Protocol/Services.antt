-- ===== src/Protocol/Services.antt =====
-- The ECHONET Lite service values, `ESV` of src/pyhems/const.py.
use pyhems.Common.{ℕ, ◌≡◌, refl, ◌<◌, Option, none, some, ◌==◌, if◌then◌else◌, arith}

pub data Esv : Type 0 where
  seti_sna setc_sna get_sna inf_sna setget_sna : Esv
  seti setc get inf_req setget : Esv
  set_res get_res inf infc infc_res setget_res : Esv

-- The value of a member: `result.append(self.esv)` writes it.
unfoldable pub esv_code : Esv → ℕ
esv_code seti_sna = 0x50
esv_code setc_sna = 0x51
esv_code get_sna = 0x52
esv_code inf_sna = 0x53
esv_code setget_sna = 0x5E
esv_code seti = 0x60
esv_code setc = 0x61
esv_code get = 0x62
esv_code inf_req = 0x63
esv_code setget = 0x6E
esv_code set_res = 0x71
esv_code get_res = 0x72
esv_code inf = 0x73
esv_code infc = 0x74
esv_code infc_res = 0x7A
esv_code setget_res = 0x7E

-- ESV(n), with `none` for its ValueError.
unfoldable pub esv_of_code : ℕ → Option Esv
esv_of_code n =
    if n == 0x50
    then some seti_sna
    else if n == 0x51
    then some setc_sna
    else if n == 0x52
    then some get_sna
    else if n == 0x53
    then some inf_sna
    else if n == 0x5E
    then some setget_sna
    else if n == 0x60
    then some seti
    else if n == 0x61
    then some setc
    else if n == 0x62
    then some get
    else if n == 0x63
    then some inf_req
    else if n == 0x6E
    then some setget
    else response_of_code n
  where
    response_of_code : ℕ → Option Esv
    response_of_code n =
        if n == 0x71
        then some set_res
        else if n == 0x72
        then some get_res
        else if n == 0x73
        then some inf
        else if n == 0x74
        then some infc
        else if n == 0x7A
        then some infc_res
        else if n == 0x7E
        then some setget_res
        else none

pub esv_of_code-esv_code : (e : Esv) → esv_of_code (esv_code e) ≡ some e
unfolding esv_of_code esv_code
esv_of_code-esv_code seti_sna = refl
esv_of_code-esv_code _ = refl

pub esv_code-esv_of_code : (n : ℕ) (e : Esv) → esv_of_code n ≡ some e → esv_code e ≡ n
unfolding esv_of_code esv_code
esv_code-esv_of_code n e h = ground arith

pub esv_code-lt : (e : Esv) → esv_code e < 256
unfolding esv_code
esv_code-lt seti_sna = omega arith
esv_code-lt _ = omega arith
