-- ===== src/Client/RequestQueue/Priority.antt =====
-- Whom `release` of `_NodeRequestQueue` (src/pyhems/runtime.py) hands the slot to.
use pyhems.Common.{
  ltb, ltb→lt, Bool-cases, length, All, All-map, ℕ_key, list_key, ℕ, zero, suc, ◌≤◌, ◌<◌, ◌≡◌, refl,
  sym, ap, ◌∙◌, ◌⊎◌, inl, inr, true, false, Option, none, some, List, [], ◌∷◌, arith,
}
use pyhems.Client.RequestQueue.{
  granted, is_done, Waiter, NodeRequestQueue, set_future, precedes, pop_min, release_loop, release,
}

-- A lower priority value, or the same one and no later arrival.
abbrev pub ComesFirst : Waiter → Waiter → Type 0
ComesFirst a b = (a.priority < b.priority) ⊎ ((a.priority ≡ b.priority) × (a.sequence ≤ b.sequence))

precedes-ComesFirst : (a b : Waiter) → precedes a b ≡ true → ComesFirst a b
unfolding precedes
precedes-ComesFirst a b h = elim (Bool-cases (ltb a.priority b.priority)) [
  | inl lower ↦ inl (ltb→lt a.priority b.priority lower)
  | inr other ↦ inr (ground arith, ground arith)
]

precedes_refl : (a : Waiter) → precedes a a ≡ true
unfolding precedes
precedes_refl a = ground arith

precedes_trans : (a b c : Waiter) → precedes a b ≡ true → precedes b c ≡ true → precedes a c ≡ true
unfolding precedes
precedes_trans a b c h k = ground arith

precedes-total : (a b : Waiter) → precedes a b ≡ false → precedes b a ≡ true
unfolding precedes
precedes-total a b h = ground arith

-- A pop takes one waiter out and leaves the others, and no other waiter precedes it.
pub record IsPop (ws : List Waiter) (m : Waiter) (rest : List Waiter) : Type 1 where
  pub least : All (λ w. precedes m w ≡ true) rest
  pub parts : (P : Waiter → Type 0) → All P ws → P m × All P rest
  pub together : (P : Waiter → Type 0) → P m → All P rest → All P ws
  pub length_pop : length ws ≡ suc (length rest)

pub pop_min-cases :
    (ws : List Waiter)
    → ((ws ≡ []) × (pop_min ws ≡ none))
      ⊎ ((m : Waiter) × (rest : List Waiter) × (pop_min ws ≡ some (m, rest)) × IsPop ws m rest)
unfolding pop_min
pop_min-cases [] = inl (refl, refl)
pop_min-cases (w ∷ ws) = elim (pop_min-cases ws) [
  | inl (e, p) ↦ inr (
    w,
    ws,
    rw (p, pop_min),
    record { least = rw e tt; parts = λ P h. h; together = λ P h k. (h, k); length_pop = refl },
  )
  | inr (m, rest, p, i) ↦ elim (Bool-cases (precedes m w)) [
    | inl before ↦ inr (
      m,
      w ∷ rest,
      rw (p, pop_min, before),
      record {
        least = (before, i.least);
        parts = λ P h. let (a, b) = i.parts P h.1 in (a, (h.0, b));
        together = λ P h k. (k.0, i.together P h k.1);
        length_pop = ap suc i.length_pop;
      },
    )
    | inr after ↦ inr (
      w,
      ws,
      rw (p, pop_min, after),
      record {
        least =
            i.together (λ a. precedes w a ≡ true) (precedes-total m w after)
              (All-map _ _ rest (λ a h. precedes_trans w m a (precedes-total m w after) h) i.least);
        parts = λ P h. h;
        together = λ P h k. (h, k);
        length_pop = refl;
      },
    )
  ]
]

-- The waiter `w` of the queue gets the slot; `r` is the queue afterwards.
pub record IsHandedOver (q r : NodeRequestQueue) (w : Waiter) : Type 1 where
  pub waited : (P : Waiter → Type 0) → All P q.waiters → P w × All P r.waiters
  pub live : is_done (q.futures w.sequence) ≡ false
  pub first : All (λ x. is_done (q.futures x.sequence) ≡ false → ComesFirst w x) q.waiters
  pub others_wait :
      (P : Waiter → Type 0)
      → P w
      → All P r.waiters
      → All (λ x. (is_done (q.futures x.sequence) ≡ true) ⊎ P x) q.waiters
  pub woken : r.futures ≡ set_future q.futures w.sequence granted
  pub still_busy : r.busy ≡ q.busy

-- Nobody waits for the slot any more.
pub record IsFreed (q r : NodeRequestQueue) : Type 0 where
  pub no_live : All (λ x. is_done (q.futures x.sequence) ≡ true) q.waiters
  pub none_left : r.waiters ≡ []
  pub same_futures : r.futures ≡ q.futures
  pub not_busy : r.busy ≡ false

abbrev pub IsRelease : NodeRequestQueue → NodeRequestQueue × Option ℕ → Type 1
IsRelease q r =
    ((r.1 ≡ none) × IsFreed q r.0) ⊎ ((w : Waiter) × (r.1 ≡ some w.sequence) × IsHandedOver q r.0 w)

-- A dead waiter is popped, and the rest of the loop is right about what is left.
IsRelease-past :
    (q : NodeRequestQueue) (m : Waiter) (rest : List Waiter) (r : NodeRequestQueue × Option ℕ)
    → IsPop q.waiters m rest
    → is_done (q.futures m.sequence) ≡ true
    → IsRelease (record q { waiters = rest }) r
    → IsRelease q r
IsRelease-past q m rest r i dead (inl (e, f)) = inl (
  e,
  record {
    no_live = i.together (λ x. is_done (q.futures x.sequence) ≡ true) dead f.no_live;
    none_left = f.none_left;
    same_futures = f.same_futures;
    not_busy = f.not_busy;
  },
)
IsRelease-past q m rest r i dead (inr (w, e, h)) = inr (
  w,
  e,
  record {
    waited = λ P all. h.waited P (i.parts P all).1;
    live = h.live;
    first =
        i.together (λ x. is_done (q.futures x.sequence) ≡ false → ComesFirst w x)
          (λ alive. let clash = sym dead ∙ alive in cc) h.first;
    others_wait = λ P p all.
        i.together (λ x. (is_done (q.futures x.sequence) ≡ true) ⊎ P x) (inl dead)
          (h.others_wait P p all);
    woken = h.woken;
    still_busy = h.still_busy;
  },
)

release_loop_lem :
    (fuel : ℕ) (q : NodeRequestQueue) → length q.waiters < fuel → IsRelease q (release_loop fuel q)
unfolding release_loop
release_loop_lem zero q h = absurd (omega arith)
release_loop_lem (suc fuel) q h = elim (pop_min-cases q.waiters) [
  | inl (e, p) ↦
      rw (release_loop, p)
        (inl
          (refl, record { no_live = rw e tt; none_left = e; same_futures = refl; not_busy = refl }))
  | inr (m, rest, p, i) ↦ elim (Bool-cases (is_done (q.futures m.sequence))) [
    | inl dead ↦
        rw (release_loop, p, dead)
          (IsRelease-past q m rest _ i dead
            (release_loop_lem fuel (record q { waiters = rest }) (omega (arith, i.length_pop))))
    | inr alive ↦
        rw (release_loop, p, alive)
          (inr (
            m,
            refl,
            record {
              waited = i.parts;
              live = alive;
              first =
                  i.together (λ x. is_done (q.futures x.sequence) ≡ false → ComesFirst m x)
                    (λ _. precedes-ComesFirst m m (precedes_refl m))
                    (All-map _ _ rest (λ a b _. precedes-ComesFirst m a b) i.least);
              others_wait = λ P p all.
                  i.together (λ x. (is_done (q.futures x.sequence) ≡ true) ⊎ P x) (inr p)
                    (All-map _ _ rest (λ a b. inr b) all);
              woken = refl;
              still_busy = refl;
            },
          ))
  ]
]

-- `release` wakes a live waiter that no other live waiter precedes, by priority and then by
-- arrival; the futures of the others stay as they are, and every live one still waits. It frees
-- the slot exactly when no live waiter is left.
pub release-IsRelease : (q : NodeRequestQueue) → IsRelease q (release q)
unfolding release
release-IsRelease q = release_loop_lem (suc (length q.waiters)) q (omega arith)
