-- ===== src/Common/Sets.antt =====
-- A frozenset of EPCs, as a list that is read by membership alone.
use Prim.Native.Nat.{ℕ}
use mathlib.Core.Path.{◌≡◌, refl}
use mathlib.Core.Bool.{Bool, true, false, not, ◌&&◌, ◌||◌}
use mathlib.Core.List.{List, [], ◌∷◌, ◌++◌}
use native.Mathlib.Omega.{arith}
use pyhems.Common.Tests.{◌==◌, if◌then◌else◌, ==_iff}
use pyhems.Common.Lists.{select, is_empty}

unfoldable pub contains : List ℕ → ℕ → Bool
contains [] a = false
contains (x ∷ xs) a = if x == a then true else contains xs a

-- s & t, s - t and s | t
unfoldable pub intersection : List ℕ → List ℕ → List ℕ
intersection s t = select (contains t) s

unfoldable pub difference : List ℕ → List ℕ → List ℕ
difference s t = select (λ e. not (contains t e)) s

unfoldable pub union : List ℕ → List ℕ → List ℕ
union s t = s ++ t

pub contains-nil : (a : ℕ) → contains [] a ≡ false
unfolding contains
contains-nil a = refl

pub contains-cons :
    (x : ℕ) (xs : List ℕ) (a : ℕ) → contains (x ∷ xs) a ≡ (if x == a then true else contains xs a)
unfolding contains
contains-cons x xs a = refl

pub contains-append : (s t : List ℕ) (a : ℕ) → contains (s ++ t) a ≡ (contains s a || contains t a)
unfolding contains
contains-append [] t a = refl
contains-append (x ∷ s) t a = ground (arith, contains-append s t a)

pub contains-select :
    (p : ℕ → Bool) (s : List ℕ) (a : ℕ) → contains (select p s) a ≡ (contains s a && p a)
unfolding contains
contains-select p [] a = refl
contains-select p (x ∷ s) a = ground (arith, contains-select p s a, ==_iff x a)

pub contains-intersection :
    (s t : List ℕ) (a : ℕ) → contains (intersection s t) a ≡ (contains s a && contains t a)
unfolding intersection
contains-intersection s t a = contains-select (contains t) s a

pub contains-difference :
    (s t : List ℕ) (a : ℕ) → contains (difference s t) a ≡ (contains s a && not (contains t a))
unfolding difference
contains-difference s t a = contains-select (λ e. not (contains t e)) s a

pub contains-union :
    (s t : List ℕ) (a : ℕ) → contains (union s t) a ≡ (contains s a || contains t a)
unfolding union
contains-union s t a = contains-append s t a

pub ruleset set_laws =
    (contains-nil, contains-append, contains-intersection, contains-difference, contains-union)

pub contains-is_empty : (s : List ℕ) (a : ℕ) → is_empty s ≡ true → contains s a ≡ false
unfolding contains
contains-is_empty [] a h = refl
contains-is_empty (x ∷ s) a h = cc
