-- ===== src/Common/Dicts.antt =====
-- A `dict`, as the list of its items in insertion order.
use mathlib.Core.Path.{◌≡◌, refl}
use mathlib.Core.Bool.{Bool, true}
use mathlib.Core.Option.{Option, none, some}
use mathlib.Core.List.{List, [], ◌∷◌}
use Prim.Native.Nat.{◌+◌, ◌≤◌}
use native.Mathlib.Omega.{arith}
use pyhems.Common.Tests.{if◌then◌else◌, is_some}
use pyhems.Common.Lists.{length}
use pyhems.Common.Keys.{Key}

abbrev pub Dict {ℓ κ} : Type ℓ → Type κ → Type (ℓ ⊔ κ)
Dict K V = List (K × V)

module _ {ℓ κ} {K : Type ℓ} {V : Type κ} ⦃key : Key K⦄ where
  -- d.get(k)
  unfoldable pub find : Dict K V → K → Option V
  find [] k = none
  find ((j, v) ∷ d) k = if key.same j k then some v else find d k

  -- d[k] = v
  unfoldable pub put : Dict K V → K → V → Dict K V
  put [] k v = (k, v) ∷ []
  put ((j, w) ∷ d) k v = if key.same j k then (j, v) ∷ d else (j, w) ∷ put d k v

  -- d.pop(k, None)
  unfoldable pub remove : Dict K V → K → Dict K V
  remove [] k = []
  remove ((j, w) ∷ d) k = if key.same j k then remove d k else (j, w) ∷ remove d k

  -- k in d
  abbrev pub has_key : Dict K V → K → Bool
  has_key d k = is_some (find d k)

  -- d.setdefault(k, v)
  unfoldable pub set_default : Dict K V → K → V → Dict K V
  unfolding put
  set_default d k v = if has_key d k then d else put d k v

  pub find-put :
      (d : Dict K V) (k j : K) (v : V)
      → find (put d k v) j ≡ (if key.same k j then some v else find d j)
  unfolding find put
  find-put [] k j v = refl
  find-put ((i, w) ∷ d) k j v =
      ground (arith, find-put d k j v, key.same_iff i k, key.same_iff i j, key.same_iff k j)

  pub find-remove :
      (d : Dict K V) (k j : K) → find (remove d k) j ≡ (if key.same k j then none else find d j)
  unfolding find remove
  find-remove [] k j = ground arith
  find-remove ((i, w) ∷ d) k j =
      ground (arith, find-remove d k j, key.same_iff i k, key.same_iff i j, key.same_iff k j)

  pub find-set_default :
      (d : Dict K V) (k j : K) (v : V)
      → find (set_default d k v) j
        ≡ (if key.same k j then (if has_key d k then find d k else some v) else find d j)
  unfolding set_default
  find-set_default d k j v = ground (arith, find-put d k j v, key.same_iff k j)

  pub length-put : (d : Dict K V) (k : K) (v : V) → length (put d k v) ≤ length d + 1
  unfolding put
  length-put [] k v = omega arith
  length-put ((i, w) ∷ d) k v = ground (arith, length-put d k v)

  pub length-put_old :
      (d : Dict K V) (k : K) (v : V) → has_key d k ≡ true → length (put d k v) ≡ length d
  unfolding put find
  length-put_old [] k v h = cc
  length-put_old ((i, w) ∷ d) k v h = ground (arith, length-put_old d k v)

  pub length-remove : (d : Dict K V) (k : K) → length (remove d k) ≤ length d
  unfolding remove
  length-remove [] k = omega arith
  length-remove ((i, w) ∷ d) k = ground (arith, length-remove d k)
