-- ===== src/Common/Distinctness.antt =====
-- Lists of EPCs with no EPC twice, and how many EPCs such a list can hold.
use mathlib.Core.Path.{◌≡◌}
use mathlib.Core.Bool.{Bool, true, false, not}
use mathlib.Core.List.{List, [], ◌∷◌, ◌++◌, Perm, Permᴰ}
use mathlib.Core.Logic.{∥∥₁_elim, inl, inr}
use Prim.Native.Nat.{ℕ, ◌≤◌, ◌<◌}
use native.Mathlib.Omega.{arith}
use pyhems.Common.Tests.{◌==◌, ==_iff, Bool-cases}
use pyhems.Common.Lists.{length, select, length-select}
use pyhems.Common.Sets.{contains, contains-append, contains-select, contains-cons}
use pyhems.Common.Perms.{contains-Permᴰ}

abbrev pub Distinct : List ℕ → Type 0
Distinct [] = Unit
Distinct (x ∷ xs) = (contains xs x ≡ false) × Distinct xs

pub Distinct-prop : (xs : List ℕ) → IsProp (Distinct xs)
Distinct-prop [] = hlevel
Distinct-prop (x ∷ xs) = hlevel (Distinct-prop xs, Bool-set)
  where
    Bool-set : IsSet Bool
    Bool-set = hlevel

Distinct-Permᴰ : {xs ys : List ℕ} → Permᴰ xs ys → Distinct xs → Distinct ys
unfolding contains
Distinct-Permᴰ Permᴰ.nil d = tt
Distinct-Permᴰ (Permᴰ.cons {a = a} {b = b} e p) d =
    (ground (arith, contains-Permᴰ a p, d.0), Distinct-Permᴰ p d.1)
Distinct-Permᴰ (Permᴰ.swap d e) h = ground arith
Distinct-Permᴰ (Permᴰ.trans p q) d = Distinct-Permᴰ q (Distinct-Permᴰ p d)

pub Distinct-Perm : {xs ys : List ℕ} → Perm xs ys → Distinct xs → Distinct ys
Distinct-Perm {xs} {ys} p d = ∥∥₁_elim p (Distinct-prop ys) (λ q. Distinct-Permᴰ q d)

pub Distinct-left : (xs ys : List ℕ) → Distinct (xs ++ ys) → Distinct xs
Distinct-left [] ys d = tt
Distinct-left (x ∷ xs) ys d = (ground (arith, contains-append xs ys x), Distinct-left xs ys d.1)

pub Distinct-right : (xs ys : List ℕ) → Distinct (xs ++ ys) → Distinct ys
Distinct-right [] ys d = d
Distinct-right (x ∷ xs) ys d = Distinct-right xs ys d.1

pub Distinct-select :
    (p : ℕ → Bool) (xs ys : List ℕ) → Distinct (xs ++ ys) → Distinct (select p xs ++ ys)
Distinct-select p [] ys d = d
Distinct-select p (x ∷ xs) ys d = ground (
  arith,
  Distinct-select p xs ys d.1,
  contains-append xs ys x,
  contains-append (select p xs) ys x,
  contains-select p xs x,
)

-- Selecting leaves fewer items where one is dropped.
pub length-select_lt :
    (p : ℕ → Bool) (xs : List ℕ) (a : ℕ)
    → contains xs a ≡ true
    → p a ≡ false
    → length (select p xs) < length xs
unfolding contains
length-select_lt p [] a h e = cc
length-select_lt p (x ∷ xs) a h e =
    ground (arith, length-select p xs, length-select_lt p xs a, ==_iff x a)

-- A list with no EPC twice is no longer than one that holds all of them.
pub length-le_of_Distinct :
    (ks xs : List ℕ)
    → Distinct ks
    → ((a : ℕ) → contains ks a ≡ true → contains xs a ≡ true)
    → length ks ≤ length xs
length-le_of_Distinct [] xs d h = omega arith
length-le_of_Distinct (k ∷ ks) xs d h =
    let others = select (λ a. not (k == a)) xs in
    omega (
      arith,
      length-select_lt (λ a. not (k == a)) xs k (h k (ground (arith, contains-cons k ks k)))
          (ground arith),
      length-le_of_Distinct ks others d.1 (λ a m. inside a m),
    )
  where
    inside : (a : ℕ) → contains ks a ≡ true → contains (select (λ a. not (k == a)) xs) a ≡ true
    inside a m = ground (
      arith,
      contains-select (λ a. not (k == a)) xs a,
      h a,
      contains-cons k ks a,
      d.0,
      ==_iff k a,
    )

-- So if it is as long, it holds every EPC of the other.
pub contains_of_length :
    (ks xs : List ℕ)
    → Distinct ks
    → ((a : ℕ) → contains ks a ≡ true → contains xs a ≡ true)
    → length xs ≤ length ks
    → (a : ℕ) → contains xs a ≡ true
    → contains ks a ≡ true
contains_of_length ks xs d h l a m = elim (Bool-cases (contains ks a)) [
  | inl there ↦ there
  | inr missing ↦ absurd (
      omega (
        arith,
        length-select_lt (λ e. not (a == e)) xs a m (ground arith),
        length-le_of_Distinct ks (select (λ e. not (a == e)) xs) d (λ e k. inside missing e k),
      ))
]
  where
    inside :
        contains ks a ≡ false
        → (e : ℕ) → contains ks e ≡ true
        → contains (select (λ e. not (a == e)) xs) e ≡ true
    inside missing e k = ground (arith, contains-select (λ e. not (a == e)) xs e, h e, ==_iff a e)
