-- ===== src/Devices/Subscriptions/Counts.antt =====
-- What the Counters of src/pyhems/device_manager.py hold.
use pyhems.Common.{
  leb, ◌==◌, if◌then◌else◌, Bool-cases, contains, contains-nil, contains-cons, ℕ_key, list_key,
  Dict, find, put, remove, find-put, find-remove, Distinct, ℕ, ◌+◌, ◌-◌, ◌≡◌, refl, ap, ◌∙◌, inl,
  inr, ◌&&◌, Option, none, some, List, [], ◌∷◌, arith,
}
use pyhems.Devices.Subscriptions.{or_zero, count_of, count_up, count_down, drop_uncounted}

-- The entry of a Counter without zeros.
abbrev entry : ℕ → Option ℕ
entry n = if n == 0 then none else some n

-- The dictionary holds these numbers, and nothing for 0.
abbrev pub Counts : Dict ℕ ℕ → (ℕ → ℕ) → Type 0
Counts counts f = (a : ℕ) → find counts a ≡ entry (f a)

count_of-put :
    (counts : Dict ℕ ℕ) (e n a : ℕ)
    → count_of (put counts e n) a ≡ (if e == a then n else count_of counts a)
unfolding count_of
count_of-put counts e n a = ap or_zero (find-put counts e a n) ∙ ground arith

count_of-remove :
    (counts : Dict ℕ ℕ) (e a : ℕ)
    → count_of (remove counts e) a ≡ (if e == a then 0 else count_of counts a)
unfolding count_of
count_of-remove counts e a = ap or_zero (find-remove counts e a) ∙ ground arith

count_of_lem : (counts : Dict ℕ ℕ) (a : ℕ) → count_of counts a ≡ or_zero (find counts a)
unfolding count_of
count_of_lem counts a = refl

count_of-Counts :
    (counts : Dict ℕ ℕ) (f : ℕ → ℕ) (a : ℕ) → Counts counts f → count_of counts a ≡ f a
unfolding count_of
count_of-Counts counts f a h = ap or_zero (h a) ∙ ground arith

find-count_up :
    (es : List ℕ) (counts : Dict ℕ ℕ) (a : ℕ)
    → Distinct es
    → find (count_up es counts) a
      ≡ (if contains es a then some (count_of counts a + 1) else find counts a)
unfolding count_up
find-count_up [] counts a d = ground (arith, contains-nil a)
find-count_up (e ∷ es) counts a d = ground (
  arith,
  find-count_up es (put counts e (count_of counts e + 1)) a d.1,
  count_of-put counts e (count_of counts e + 1) a,
  find-put counts e a (count_of counts e + 1),
  contains-cons e es a,
  d.0,
)

find-count_down :
    (es : List ℕ) (counts : Dict ℕ ℕ) (a : ℕ)
    → Distinct es
    → find (count_down es counts) a
      ≡ (if contains es a then some (count_of counts a - 1) else find counts a)
unfolding count_down
find-count_down [] counts a d = ground (arith, contains-nil a)
find-count_down (e ∷ es) counts a d = ground (
  arith,
  find-count_down es (put counts e (count_of counts e - 1)) a d.1,
  count_of-put counts e (count_of counts e - 1) a,
  find-put counts e a (count_of counts e - 1),
  contains-cons e es a,
  d.0,
)

find-drop_uncounted :
    (es : List ℕ) (counts : Dict ℕ ℕ) (a : ℕ)
    → find (drop_uncounted es counts) a
      ≡ (if contains es a && leb (count_of counts a) 0 then none else find counts a)
unfolding drop_uncounted
find-drop_uncounted [] counts a = ground (arith, contains-nil a)
find-drop_uncounted (e ∷ es) counts a = elim (Bool-cases (leb (count_of counts e) 0)) [
  | inr counted ↦
      rw (drop_uncounted, counted)
        (ground (arith, find-drop_uncounted es counts a, contains-cons e es a))
  | inl uncounted ↦
      rw (drop_uncounted, uncounted)
        (ground (
          arith,
          find-drop_uncounted es (remove counts e) a,
          contains-cons e es a,
          find-remove counts e a,
          count_of-remove counts e a,
        ))
]

pub Counts-ext :
    (counts : Dict ℕ ℕ) (f g : ℕ → ℕ) → ((a : ℕ) → g a ≡ f a) → Counts counts f → Counts counts g
Counts-ext counts f g e h a = h a ∙ rw (e a) refl

-- Another subscriber counts one more of each EPC, and the end of a subscription one less.
pub count_up-Counts :
    (es : List ℕ) (counts : Dict ℕ ℕ) (f g : ℕ → ℕ)
    → Distinct es
    → Counts counts f
    → ((a : ℕ) → g a ≡ f a + (if contains es a then 1 else 0))
    → Counts (count_up es counts) g
count_up-Counts es counts f g d h up a =
    find-count_up es counts a d ∙ ground (arith, up a, h a, count_of-Counts counts f a h)

pub count_down-Counts :
    (es : List ℕ) (counts : Dict ℕ ℕ) (f g : ℕ → ℕ)
    → Distinct es
    → Counts counts f
    → ((a : ℕ) → f a ≡ g a + (if contains es a then 1 else 0))
    → Counts (drop_uncounted es (count_down es counts)) g
count_down-Counts es counts f g d h down a =
    find-drop_uncounted es (count_down es counts) a
    ∙ ground (
      arith,
      ap or_zero (find-count_down es counts a d),
      find-count_down es counts a d,
      count_of_lem (count_down es counts) a,
      h a,
      down a,
      count_of-Counts counts f a h,
    )
