-- ===== src/Common/Perms.antt =====
-- What two lists that are permutations of each other have in common.
use mathlib.Core.List.{Perm, Permᴰ}
use mathlib.Core.Logic.{∥∥₁_elim}
use mathlib.Core.List.{List, [], ◌∷◌}
use mathlib.Core.Bool.{Bool, true}
use mathlib.Core.Path.{◌≡◌, refl, ◌∙◌}
use native.Mathlib.Nat.{ℕ_set}
use native.Mathlib.Omega.{arith}
use Prim.Native.Nat.{ℕ, ◌<◌}
use pyhems.Common.Lists.{length}
use pyhems.Common.Sets.{contains}

length-Permᴰ {ℓ} : {A : Type ℓ} {xs ys : List A} → Permᴰ xs ys → length xs ≡ length ys
length-Permᴰ Permᴰ.nil = refl
length-Permᴰ (Permᴰ.cons e p) = omega (arith, length-Permᴰ p)
length-Permᴰ (Permᴰ.swap d e) = refl
length-Permᴰ (Permᴰ.trans p q) = length-Permᴰ p ∙ length-Permᴰ q

pub contains-Permᴰ : (a : ℕ) {xs ys : List ℕ} → Permᴰ xs ys → contains xs a ≡ contains ys a
unfolding contains
contains-Permᴰ a Permᴰ.nil = refl
contains-Permᴰ a (Permᴰ.cons e p) = ground (arith, contains-Permᴰ a p)
contains-Permᴰ a (Permᴰ.swap d e) = ground arith
contains-Permᴰ a (Permᴰ.trans p q) = contains-Permᴰ a p ∙ contains-Permᴰ a q

Bool-set : IsSet Bool
Bool-set = hlevel

pub length-Perm {ℓ} : {A : Type ℓ} {xs ys : List A} → Perm xs ys → length xs ≡ length ys
length-Perm p = ∥∥₁_elim p (ℕ_set _ _) (λ q. length-Permᴰ q)

pub contains-Perm : (a : ℕ) {xs ys : List ℕ} → Perm xs ys → contains xs a ≡ contains ys a
contains-Perm a p = ∥∥₁_elim p (Bool-set _ _) (λ q. contains-Permᴰ a q)

pub contains-length : (batch : List ℕ) (a : ℕ) → contains batch a ≡ true → 0 < length batch
unfolding contains
contains-length [] a h = cc
contains-length (x ∷ batch) a h = omega arith
