-- ===== src/BatchPolicy/Split.antt =====
-- What the loop of `take_first_batch` (src/pyhems/get_batch_policy.py) keeps.
use mathlib.Core.List.{Perm, perm_middle}
use mathlib.Core.List.Perm
use pyhems.Common.{
  &&_left, &&_right, Bool-cases, length, is_empty, length-append, All, contains, intersection,
  difference, contains-nil, contains-cons, contains-append, contains-intersection,
  contains-difference, contains-is_empty, ℕ, ◌≤◌, ◌<◌, ◌≡◌, refl, sym, ◌∙◌, subst, ◌⊎◌, inl, inr,
  true, false, not, ◌&&◌, ◌||◌, Option, none, some, List, [], ◌∷◌, ◌++◌, append_assoc, append-nil,
  arith,
}
use pyhems.BatchPolicy.{can_add_to_pairs, GetBatchPolicy, can_add_to_batch, is_full, split_loop}

module _ (capacity : Option ℕ) (policy : Option GetBatchPolicy) where
  -- The two ways through the loop's body.
  split_loop-cons {κ} :
      (P : List ℕ × List ℕ → Type κ) (batch remaining : List ℕ) (epc : ℕ) (epcs : List ℕ)
      → P (split_loop capacity policy batch (remaining ++ epc ∷ []) epcs)
      → (is_full capacity batch ≡ false
          → can_add_to_batch batch epc policy ≡ true
          → P (split_loop capacity policy (batch ++ epc ∷ []) remaining epcs))
      → P (split_loop capacity policy batch remaining (epc ∷ epcs))
  unfolding split_loop
  split_loop-cons P batch remaining epc epcs postponed added =
      elim (Bool-cases (is_full capacity batch || not (can_add_to_batch batch epc policy))) [
        | inl t ↦ rw (t, split_loop) postponed
        | inr f ↦ rw (f, split_loop) (added (ground arith) (ground arith))
      ]

  pub split_loop-perm :
      (epcs batch remaining : List ℕ)
      → let split = split_loop capacity policy batch remaining epcs in
        Perm (split.0 ++ split.1) (batch ++ (remaining ++ epcs))
  unfolding split_loop
  split_loop-perm [] batch remaining = rw append-nil (Perm.refl _)
  split_loop-perm (epc ∷ epcs) batch remaining =
      split_loop-cons (λ split. Perm (split.0 ++ split.1) (batch ++ (remaining ++ epc ∷ epcs)))
        batch remaining epc epcs
        (rw (append_assoc remaining (epc ∷ []) epcs) at
          (split_loop-perm epcs batch (remaining ++ epc ∷ [])))
        λ _ _.
          Perm.trans
            (rw (append_assoc batch (epc ∷ []) (remaining ++ epcs)) at
              (split_loop-perm epcs (batch ++ epc ∷ []) remaining))
            (Perm.append_left batch (Perm.symm (perm_middle remaining epcs)))

  -- The batch never passes the capacity.
  pub split_loop-bounded :
      (epcs batch remaining : List ℕ) (bound : ℕ)
      → capacity ≡ some bound
      → length batch ≤ bound
      → length (split_loop capacity policy batch remaining epcs).0 ≤ bound
  unfolding split_loop is_full
  split_loop-bounded [] batch remaining bound e h = h
  split_loop-bounded (epc ∷ epcs) batch remaining bound e h =
      split_loop-cons (λ split. length split.0 ≤ bound) batch remaining epc epcs
        (split_loop-bounded epcs batch (remaining ++ epc ∷ []) bound e h)
        λ room _.
          split_loop-bounded epcs (batch ++ epc ∷ []) remaining bound e
            (omega (arith, below_bound room, length-append batch (epc ∷ [])))
    where
      below_bound : is_full capacity batch ≡ false → length batch < bound
      below_bound room = let r = rw (e, is_full) at room in ground arith

  -- What is in the batch stays there, in its place.
  pub split_loop-prefix :
      (epcs batch remaining : List ℕ)
      → (more : List ℕ) × ((split_loop capacity policy batch remaining epcs).0 ≡ batch ++ more)
  unfolding split_loop
  split_loop-prefix [] batch remaining = ([], sym (append-nil batch))
  split_loop-prefix (epc ∷ epcs) batch remaining =
      split_loop-cons (λ split. (more : List ℕ) × (split.0 ≡ batch ++ more)) batch remaining epc
        epcs (split_loop-prefix epcs batch (remaining ++ epc ∷ []))
        λ _ _.
          let (more, e) = split_loop-prefix epcs (batch ++ epc ∷ []) remaining in
          (epc ∷ more, e ∙ append_assoc batch (epc ∷ []) more)

-- No two different EPCs of an incompatible pair are in the batch.
abbrev pub IsCompatible : List (List ℕ) → List ℕ → Type 0
IsCompatible pairs batch =
    All
      (λ pair.
        (a b : ℕ)
        → contains pair a ≡ true
        → contains pair b ≡ true
        → contains batch a ≡ true
        → contains batch b ≡ true
        → a ≡ b)
      pairs

-- An EPC of the pair that the test let in meets no other one of the pair in the batch.
lets_in_alone :
    (batch pair : List ℕ) (epc a : ℕ)
    → not (contains pair epc && not (is_empty (intersection (difference pair (epc ∷ [])) batch)))
      ≡ true
    → contains pair epc ≡ true
    → contains pair a ≡ true
    → contains batch a ≡ true
    → a ≡ epc
lets_in_alone batch pair epc a h pe pa ba =
    let others = intersection (difference pair (epc ∷ [])) batch in
    ground (
      arith,
      contains-is_empty others a,
      contains-intersection (difference pair (epc ∷ [])) batch a,
      contains-difference pair (epc ∷ []) a,
      contains-cons epc [] a,
      contains-nil a,
    )

in_extended :
    (batch : List ℕ) (epc a : ℕ)
    → contains (batch ++ epc ∷ []) a ≡ true
    → (contains batch a ≡ true) ⊎ (a ≡ epc)
in_extended batch epc a h =
    ground (arith, contains-append batch (epc ∷ []) a, contains-cons epc [] a, contains-nil a)

can_add_to_pairs-IsCompatible :
    (batch : List ℕ) (epc : ℕ) (pairs : List (List ℕ))
    → can_add_to_pairs batch epc pairs ≡ true
    → IsCompatible pairs batch
    → IsCompatible pairs (batch ++ epc ∷ [])
unfolding can_add_to_pairs
can_add_to_pairs-IsCompatible batch epc [] h c = tt
can_add_to_pairs-IsCompatible batch epc (pair ∷ pairs) h c = (
  λ a b pa pb ba bb. meet a b pa pb (in_extended batch epc a ba) (in_extended batch epc b bb),
  can_add_to_pairs-IsCompatible batch epc pairs (&&_right _ _ h) c.1,
)
  where
    alone :
        (a : ℕ)
        → contains pair epc ≡ true
        → contains pair a ≡ true
        → contains batch a ≡ true
        → a ≡ epc
    alone a = lets_in_alone batch pair epc a (&&_left _ _ h)

    meet :
        (a b : ℕ)
        → contains pair a ≡ true
        → contains pair b ≡ true
        → (contains batch a ≡ true) ⊎ (a ≡ epc)
        → (contains batch b ≡ true) ⊎ (b ≡ epc)
        → a ≡ b
    meet a b pa pb (inl x) (inl y) = c.0 a b pa pb x y
    meet a b pa pb (inl x) (inr y) = alone a (subst (λ e. contains pair e ≡ true) y pb) pa x ∙ sym y
    meet a b pa pb (inr x) (inl y) =
        x ∙ sym (alone b (subst (λ e. contains pair e ≡ true) x pa) pb y)
    meet a b pa pb (inr x) (inr y) = x ∙ sym y

abbrev pub PolicyAllows : Option GetBatchPolicy → List ℕ → Type 0
PolicyAllows none batch = Unit
PolicyAllows (some policy) batch = IsCompatible policy.incompatible_pairs batch

can_add_to_batch-PolicyAllows :
    (policy : Option GetBatchPolicy) (batch : List ℕ) (epc : ℕ)
    → can_add_to_batch batch epc policy ≡ true
    → PolicyAllows policy batch
    → PolicyAllows policy (batch ++ epc ∷ [])
unfolding can_add_to_batch
can_add_to_batch-PolicyAllows none batch epc h c = tt
can_add_to_batch-PolicyAllows (some policy) batch epc h c =
    can_add_to_pairs-IsCompatible batch epc policy.incompatible_pairs h c

pub PolicyAllows-nil : (policy : Option GetBatchPolicy) → PolicyAllows policy []
PolicyAllows-nil none = tt
PolicyAllows-nil (some policy) = each policy.incompatible_pairs
  where
    each : (pairs : List (List ℕ)) → IsCompatible pairs []
    each [] = tt
    each (pair ∷ pairs) = (λ a b pa pb ba bb. let no_item = contains-nil a in cc, each pairs)

pub split_loop-PolicyAllows :
    (capacity : Option ℕ) (policy : Option GetBatchPolicy) (epcs batch remaining : List ℕ)
    → PolicyAllows policy batch
    → PolicyAllows policy (split_loop capacity policy batch remaining epcs).0
unfolding split_loop
split_loop-PolicyAllows capacity policy [] batch remaining c = c
split_loop-PolicyAllows capacity policy (epc ∷ epcs) batch remaining c =
    split_loop-cons capacity policy (λ split. PolicyAllows policy split.0) batch remaining epc epcs
      (split_loop-PolicyAllows capacity policy epcs batch (remaining ++ epc ∷ []) c)
      λ _ added.
        split_loop-PolicyAllows capacity policy epcs (batch ++ epc ∷ []) remaining
          (can_add_to_batch-PolicyAllows policy batch epc added c)

intersection-nil : (s : List ℕ) → is_empty (intersection s []) ≡ true
unfolding intersection contains
intersection-nil [] = refl
intersection-nil (x ∷ s) = intersection-nil s

can_add_to_pairs-nil : (epc : ℕ) (pairs : List (List ℕ)) → can_add_to_pairs [] epc pairs ≡ true
unfolding can_add_to_pairs
can_add_to_pairs-nil epc [] = refl
can_add_to_pairs-nil epc (pair ∷ pairs) =
    ground (arith, intersection-nil (difference pair (epc ∷ [])), can_add_to_pairs-nil epc pairs)

can_add_to_batch-nil :
    (policy : Option GetBatchPolicy) (epc : ℕ) → can_add_to_batch [] epc policy ≡ true
unfolding can_add_to_batch
can_add_to_batch-nil none epc = refl
can_add_to_batch-nil (some policy) epc = can_add_to_pairs-nil epc policy.incompatible_pairs

-- With room for one EPC the first one opens the batch.
pub split_loop-first :
    (capacity : Option ℕ) (policy : Option GetBatchPolicy) (epc : ℕ) (epcs : List ℕ)
    → is_full capacity [] ≡ false
    → (more : List ℕ) × ((split_loop capacity policy [] [] (epc ∷ epcs)).0 ≡ epc ∷ more)
unfolding split_loop
split_loop-first capacity policy epc epcs room =
    rw (first_added, split_loop) (split_loop-prefix capacity policy epcs (epc ∷ []) [])
  where
    first_added : (is_full capacity [] || not (can_add_to_batch [] epc policy)) ≡ false
    first_added = ground (arith, room, can_add_to_batch-nil policy epc)
