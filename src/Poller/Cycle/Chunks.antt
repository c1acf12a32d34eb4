-- ===== src/Poller/Cycle/Chunks.antt =====
-- What one poll cycle requests, `_run_cycle` of src/pyhems/poller.py.
use mathlib.Core.List.{Perm}
use mathlib.Core.List.Perm
use pyhems.Poller.Cycle.{
  CycleEnd, completed, vanished, unanswered, invalid_capacity, failed, Manager, Cycle, CycleStep,
  next_chunk, end_cycle,
}
use pyhems.Common.{length, ℕ_key, list_key, ℕ, ◌+◌, ◌<◌, ◌≡◌, List, [], ◌∷◌, ◌++◌}

pub concat : List (List ℕ) → List ℕ
concat [] = []
concat (xs ∷ xss) = xs ++ concat xss

module _ {S W : Type 0} (smoothed : S → S → S) (manager : Manager S W) (epcs : List ℕ)
    (failures : ℕ) where
  -- The failures before the cycle, until a request of it is answered.
  abbrev failures_after : List (List ℕ) → ℕ
  failures_after [] = failures
  failures_after (chunk ∷ chunks) = 0

  record IsRunning (c : Cycle S W) : Type 0 where
    pub nothing_lost : Perm (concat c.requested ++ c.remaining) epcs
    pub counted : c.state.consecutive_failures ≡ failures_after c.requested

  -- What the count of failures is at an end, and that a complete cycle left nothing out. After an
  -- unanswered request, all requests but the last were answered.
  abbrev pub IsCounted : CycleEnd → Cycle S W → Type 0
  IsCounted completed c =
      (c.remaining ≡ []) × (c.state.consecutive_failures ≡ failures_after c.requested)
  IsCounted unanswered c =
      (answered : List (List ℕ)) × (chunk : List ℕ) × (c.requested ≡ answered ++ chunk ∷ [])
      × (c.state.consecutive_failures ≡ failures_after answered + 1)
  IsCounted (failed e) c =
      (answered : List (List ℕ)) × (chunk : List ℕ) × (c.requested ≡ answered ++ chunk ∷ [])
      × (c.state.consecutive_failures ≡ failures_after answered)
  IsCounted vanished c = c.state.consecutive_failures ≡ failures_after c.requested
  IsCounted invalid_capacity c = c.state.consecutive_failures ≡ failures_after c.requested

  abbrev pub IsCycle : CycleEnd → Cycle S W → Type 0
  IsCycle how c = Perm (concat c.requested ++ c.remaining) epcs × IsCounted how c

  -- A round goes on with fewer EPCs, or ends.
  abbrev Proceeds : ℕ → CycleStep S W → Type 0
  Proceeds n (next_chunk c) = (length c.remaining < n) × IsRunning c
  Proceeds n (end_cycle how c) = IsCycle how c
