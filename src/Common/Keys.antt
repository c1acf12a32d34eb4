-- ===== src/Common/Keys.antt =====
-- Keys that can be compared: the `==` of the values that the program uses as dictionary keys.
use mathlib.Core.Path.{◌≡◌, refl}
use mathlib.Core.Logic.{◌↔◌}
use mathlib.Core.Bool.{Bool, true, false, ◌&&◌}
use mathlib.Core.List.{List, [], ◌∷◌}
use Prim.Native.Nat.{ℕ}
use native.Mathlib.Omega.{arith}
use pyhems.Common.Tests.{◌==◌, ==_iff}

pub record Key {ℓ} (K : Type ℓ) : Type ℓ where
  pub same : K → K → Bool
  pub same_iff : (a b : K) → (same a b ≡ true) ↔ (a ≡ b)

instance abbrev pub ℕ_key : Key ℕ
ℕ_key = record { same = ◌==◌; same_iff = ==_iff }

unfoldable pub same_list : List ℕ → List ℕ → Bool
same_list [] [] = true
same_list (x ∷ xs) (y ∷ ys) = x == y && same_list xs ys
same_list _ _ = false

pub same_list_iff : (a b : List ℕ) → (same_list a b ≡ true) ↔ (a ≡ b)
unfolding same_list
same_list_iff [] [] = (λ _. refl, λ _. refl)
same_list_iff [] (y ∷ ys) = (λ e. cc, λ e. cc)
same_list_iff (x ∷ xs) [] = (λ e. cc, λ e. cc)
same_list_iff (x ∷ xs) (y ∷ ys) =
    (λ e. ground (arith, (same_list_iff xs ys).0), λ e. ground (arith, (same_list_iff xs ys).1, e))

-- A text that the program builds from bytes is its list of codes.
instance abbrev pub list_key : Key (List ℕ)
list_key = record { same = same_list; same_iff = same_list_iff }

module _ {ℓ} {K : Type ℓ} ⦃k : Key K⦄ where
  pub same_refl : (a : K) → k.same a a ≡ true
  same_refl a = (k.same_iff a a).1 refl
