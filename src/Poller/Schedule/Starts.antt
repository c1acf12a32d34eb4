-- ===== src/Poller/Schedule/Starts.antt =====
-- The cycles that `_schedule_polls` (src/pyhems/poller.py) starts.
use pyhems.Intervals.{Seconds, PollerSettings}
use pyhems.Poller.Schedule.{
  DeviceSchedule, PolledNode, StartedCycle, sort_epcs, insert_epc, cycle_epcs, is_polling,
  fire_poll, schedule_device, schedule_polls,
}
use pyhems.Common.{
  if◌then◌else◌, Bool-cases, is_empty, All, ℕ_key, same_list, same_list_iff, list_key, same_refl,
  Dict, find, put, find-put, ℕ, ◌≡◌, refl, subst, inl, inr, Bool, true, false, ◌&&◌, ◌||◌, List, [],
  ◌∷◌, arith,
}

pub is_started : List StartedCycle → List ℕ → Bool
unfolding same_list
is_started [] key = false
is_started (c ∷ cs) key = same_list c.device_key key || is_started cs key

-- No device has two cycles.
abbrev pub IsSingle : List StartedCycle → Type 0
IsSingle [] = Unit
IsSingle (c ∷ cs) = (is_started cs c.device_key ≡ false) × IsSingle cs

insert_epc-some : (x : ℕ) (xs : List ℕ) → is_empty (insert_epc x xs) ≡ false
unfolding insert_epc
insert_epc-some x [] = refl
insert_epc-some x (y ∷ ys) = ground arith

module _ {S : Type 0} (before : Dict (List ℕ) (DeviceSchedule S)) where
  -- A device that had no cycle in progress, has one now, and is asked for something.
  abbrev pub IsStart : Dict (List ℕ) (DeviceSchedule S) → StartedCycle → Type 0
  IsStart after c =
      (is_polling (find before c.device_key) ≡ false)
      × (is_polling (find after c.device_key) ≡ true)
      × (is_empty c.epcs ≡ false)

  -- What the schedule has done so far: every start is one, no device has two, and the state of all
  -- other devices is as before.
  pub record IsSchedule (r : Dict (List ℕ) (DeviceSchedule S) × List StartedCycle) : Type 0 where
    pub starts : All (IsStart r.0) r.1
    pub single : IsSingle r.1
    pub others : (key : List ℕ) → is_started r.1 key ≡ false → find r.0 key ≡ find before key

  -- A started device is polling.
  started-is_polling :
      (after : Dict (List ℕ) (DeviceSchedule S)) (cs : List StartedCycle) (key : List ℕ)
      → All (IsStart after) cs
      → is_polling (find after key) ≡ false
      → is_started cs key ≡ false
  unfolding is_started
  started-is_polling after [] key h p = refl
  started-is_polling after (c ∷ cs) key h p = elim (Bool-cases (same_list c.device_key key)) [
    | inr other ↦ rw other (started-is_polling after cs key h.1 p)
    | inl hit ↦
        let same : c.device_key ≡ key = (same_list_iff c.device_key key).0 hit in
        let clash = subst (λ k. is_polling (find after k) ≡ true) same h.0.1 in absurd cc
  ]

  sort_epcs-some : (es : List ℕ) → is_empty es ≡ false → is_empty (sort_epcs es) ≡ false
  unfolding sort_epcs
  sort_epcs-some [] h = absurd cc
  sort_epcs-some (e ∷ es) h = insert_epc-some e (sort_epcs es)

  put-IsStart :
      (after : Dict (List ℕ) (DeviceSchedule S)) (key : List ℕ) (s : DeviceSchedule S)
      (cs : List StartedCycle)
      → s.polling ≡ true
      → All (IsStart after) cs
      → All (IsStart (put after key s)) cs
  unfolding is_polling
  put-IsStart after key s [] p h = tt
  put-IsStart after key s (c ∷ cs) p h = (
    (
      h.0.0,
      elim (Bool-cases (same_list key c.device_key)) [
        | inl hit ↦ rw (find-put after key c.device_key s, hit) p
        | inr other ↦ rw (find-put after key c.device_key s, other) h.0.1
      ],
      h.0.2,
    ),
    put-IsStart after key s cs p h.1,
  )

  start-IsSchedule :
      (key : List ℕ) (s : DeviceSchedule S) (es : List ℕ)
      (r : Dict (List ℕ) (DeviceSchedule S) × List StartedCycle)
      → s.polling ≡ true
      → is_empty es ≡ false
      → is_polling (find r.0 key) ≡ false
      → IsSchedule r
      → IsSchedule (put r.0 key s, record { device_key = key; epcs = es } ∷ r.1)
  unfolding is_started is_polling
  start-IsSchedule key s es (after, started) polls asked waiting h =
      let fresh = started-is_polling after started key h.starts waiting in
      record {
        starts = (
          (
            subst (λ o. is_polling o ≡ false) (h.others key fresh) waiting,
            rw (find-put after key key s, same_refl key) polls,
            asked,
          ),
          put-IsStart after key s started polls h.starts,
        );
        single = (fresh, h.single);
        others = λ k no. elim (Bool-cases (same_list key k)) [
          | inl hit ↦ let clash = rw hit at no in absurd cc
          | inr other ↦ rw (find-put after key k s, other) (h.others k (rw other at no))
        ];
      }

module _ {S : Type 0} ⦃sec : Seconds S⦄ (elapsed : S → S → S) (settings : PollerSettings S)
    (now : S) (clock : List ℕ → S) (before : Dict (List ℕ) (DeviceSchedule S)) where
  fire_poll-IsSchedule :
      (key : List ℕ) (node : PolledNode) (fast normal : Bool)
      (r : Dict (List ℕ) (DeviceSchedule S) × List StartedCycle)
      → is_polling (find r.0 key) ≡ false
      → IsSchedule before r
      → IsSchedule before (fire_poll elapsed settings now (clock key) key node fast normal r)
  unfolding fire_poll
  fire_poll-IsSchedule key node fast normal (after, started) waiting h =
      elim (Bool-cases (is_empty (cycle_epcs node fast normal))) [
        | inl nothing ↦ rw nothing h
        | inr some_epc ↦ rw some_epc (
            start-IsSchedule before key _ (sort_epcs (cycle_epcs node fast normal)) (after, started)
              refl (sort_epcs-some before _ some_epc) waiting h)
      ]

  schedule_device-IsSchedule :
      (d : List ℕ × PolledNode) (r : Dict (List ℕ) (DeviceSchedule S) × List StartedCycle)
      → IsSchedule before r
      → IsSchedule before (schedule_device elapsed settings now clock d r)
  unfolding schedule_device
  schedule_device-IsSchedule (key, node) (after, started) h =
      elim (Bool-cases (
        is_polling (find after key) || (is_empty node.poll_epcs && is_empty node.fast_poll_epcs))) [
          | inl skipped ↦ rw skipped h
          | inr tried ↦ rw tried (
              either _ _ _ h
                (fire_poll-IsSchedule key node _ _ (after, started) (ground (arith, tried)) h))
        ]
    where
      either :
          (b : Bool) (x y : Dict (List ℕ) (DeviceSchedule S) × List StartedCycle)
          → IsSchedule before x
          → IsSchedule before y
          → IsSchedule before (if b then x else y)
      either true x y p q = p
      either false x y p q = q

  schedule_polls-IsSchedule_after :
      (devices : Dict (List ℕ) PolledNode)
      (r : Dict (List ℕ) (DeviceSchedule S) × List StartedCycle)
      → IsSchedule before r
      → IsSchedule before (schedule_polls elapsed settings now clock devices r)
  unfolding schedule_polls
  schedule_polls-IsSchedule_after [] r h = h
  schedule_polls-IsSchedule_after (d ∷ devices) r h =
      schedule_polls-IsSchedule_after devices _ (schedule_device-IsSchedule d r h)

  -- A run of the schedule starts a cycle only for a device that had none in progress, and none
  -- without an EPC to ask for; it starts no two cycles for one device, and leaves the state of the
  -- devices that it does not start as it was.
  pub schedule_polls-IsSchedule :
      (devices : Dict (List ℕ) PolledNode)
      → IsSchedule before (schedule_polls elapsed settings now clock devices (before, []))
  schedule_polls-IsSchedule devices =
      schedule_polls-IsSchedule_after devices (before, [])
        (record { starts = tt; single = tt; others = λ key no. refl })
