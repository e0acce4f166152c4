-- ===== src/WorkerPool/Once.antt =====
-- The barrier: when `run` returns, every item has been worked on exactly once.
use gpsopen_cl.Prelude.{ℕ, zero, suc, ◌+◌, ◌-◌, ◌≤◌, ◌≡◌, refl}
use gpsopen_cl.Prelude.{List, [], ◌∷◌, some, ltb, leb, ◌==◌, if◌then◌else◌, get_elem?, set}
use gpsopen_cl.Prelude.{min, arith, Bool-cases, inl, inr}
use mathlib.Core.Path.{subst}
use gpsopen_cl.WorkerPool.{
  Worker, sleeping, draining, working, leaving, Caller, idle, claiming, busy,
}
use gpsopen_cl.WorkerPool.{
  waiting, Pool, helpers, start_run, caller_claims, worker_claims, worker_wakes,
}
use gpsopen_cl.WorkerPool.{Step, Steps}

abbrev pub hit : ℕ → ℕ → ℕ
hit k j = if k == j then 1 else 0

-- How often item `k` is in the log, and how often someone is at it.
abbrev pub occurrences : ℕ → List ℕ → ℕ
occurrences k [] = 0
occurrences k (j ∷ log) = hit k j + occurrences k log

abbrev pub at_caller : ℕ → Caller → ℕ
at_caller k idle = 0
at_caller k claiming = 0
at_caller k (busy j) = hit k j
at_caller k waiting = 0

abbrev pub at_worker : ℕ → Worker → ℕ
at_worker k (sleeping seen) = 0
at_worker k (draining seen) = 0
at_worker k (working seen j) = hit k j
at_worker k (leaving seen) = 0

abbrev pub active : Worker → ℕ
active (sleeping seen) = 0
active (draining seen) = 1
active (working seen j) = 1
active (leaving seen) = 1

abbrev pub total : (Worker → ℕ) → List Worker → ℕ
total f [] = 0
total f (w ∷ ws) = f w + total f ws

total-set :
    (f : Worker → ℕ) (ws : List Worker) (i : ℕ) (old new : Worker)
    → get_elem? ws i ≡ some old
    → total f (set ws i new) + f old ≡ total f ws + f new
total-set f [] i old new h = absurd (cc)
total-set f (w ∷ ws) zero old new h = let e : w ≡ old = cc in rw e (omega arith)
total-set f (w ∷ ws) (suc i) old new h = omega (arith, total-set f ws i old new h)

at-active : (k : ℕ) (ws : List Worker) → total (at_worker k) ws ≤ total active ws
at-active k [] = omega arith
at-active k (sleeping seen ∷ ws) = omega (arith, at-active k ws)
at-active k (draining seen ∷ ws) = omega (arith, at-active k ws)
at-active k (working seen j ∷ ws) = ground (arith, at-active k ws)
at-active k (leaving seen ∷ ws) = omega (arith, at-active k ws)

-- Outside the draining, the cursor is past the last item; outside `run`, no helper is awaited.
abbrev pub AtRest : Caller → Pool → Type 0
AtRest idle p = (p.item_count ≤ p.cursor) × (p.pending_workers ≡ 0)
AtRest claiming p = Unit {0}
AtRest (busy j) p = Unit {0}
AtRest waiting p = p.item_count ≤ p.cursor

-- Every item below the cursor is in the log or in somebody's hands, once, and no other is; the
-- helpers awaited are the free slots and the active workers.
pub record IsShared (p : Pool) : Type 0 where
  pub slots : p.claimed_workers ≤ p.helper_target
  pub awaited : p.pending_workers + p.claimed_workers ≡ p.helper_target + total active p.workers
  pub rest : AtRest p.caller p
  pub once :
      (k : ℕ)
      → occurrences k p.log + at_caller k p.caller + total (at_worker k) p.workers
        ≡ (if ltb k (min p.cursor p.item_count) then 1 else 0)

-- The invariant at a caller known to be at `c`.
rest_at : (c : Caller) (p : Pool) → p.caller ≡ c → IsShared p → AtRest c p
rest_at c p e h = subst (λ c. AtRest c p) e h.rest

once_at :
    (c : Caller) (p : Pool)
    → p.caller ≡ c
    → IsShared p
    → (k : ℕ)
    → occurrences k p.log + at_caller k c + total (at_worker k) p.workers
      ≡ (if ltb k (min p.cursor p.item_count) then 1 else 0)
once_at c p e h k =
    subst
      (λ c.
        occurrences k p.log + at_caller k c + total (at_worker k) p.workers
        ≡ (if ltb k (min p.cursor p.item_count) then 1 else 0))
      e (h.once k)

start_run-IsShared : (n : ℕ) (p : Pool) → p.caller ≡ idle → IsShared p → IsShared (start_run n p)
unfolding start_run
start_run-IsShared n p e h =
    let still : AtRest idle p = rest_at idle p e h in
    let none_active : total active p.workers ≡ 0 = omega (arith, h.slots, h.awaited, still.1) in
    let fresh : (k : ℕ) → total (at_worker k) p.workers ≡ 0 =
      λ k. omega (arith, at-active k p.workers, none_active) in
    elim (Bool-cases (helpers p n == 0)) [
      | inl z ↦ rw z (record {
        slots = h.slots;
        awaited = h.awaited;
        rest = tt;
        once = λ k. (let f = fresh k in ground (arith, f));
      })
      | inr z ↦ rw z (record {
        slots = omega arith;
        awaited = omega (arith, none_active);
        rest = tt;
        once = λ k. (let f = fresh k in ground (arith, f));
      })
    ]

caller_claims-IsShared : (p : Pool) → p.caller ≡ claiming → IsShared p → IsShared (caller_claims p)
unfolding caller_claims
caller_claims-IsShared p e h = elim (Bool-cases (ltb p.cursor p.item_count)) [
  | inl more ↦ rw more (record {
    slots = h.slots;
    awaited = h.awaited;
    rest = tt;
    once = λ k. (let o = once_at claiming p e h k in ground (arith, o, more));
  })
  | inr over ↦ rw over (record {
    slots = h.slots;
    awaited = h.awaited;
    rest = ground (arith, over);
    once = λ k. (let o = once_at claiming p e h k in ground (arith, o, over));
  })
]

works-IsShared :
    (p : Pool) (item : ℕ)
    → p.caller ≡ busy item
    → IsShared p
    → IsShared (record p { caller = claiming; log = item ∷ p.log })
works-IsShared p item e h = record {
  slots = h.slots;
  awaited = h.awaited;
  rest = tt;
  once = λ k. (let o = once_at (busy item) p e h k in omega (arith, o));
}

returns-IsShared :
    (p : Pool)
    → p.caller ≡ waiting
    → p.pending_workers ≡ 0
    → IsShared p
    → IsShared (record p { caller = idle })
returns-IsShared p e z h = record {
  slots = h.slots;
  awaited = h.awaited;
  rest = (rest_at waiting p e h, z);
  once = once_at waiting p e h;
}

-- What `rest` asks for does not depend on the workers, and holds of a larger cursor.
AtRest-later :
    (c : Caller) (p q : Pool)
    → p.item_count ≡ q.item_count
    → p.cursor ≤ q.cursor
    → (p.pending_workers ≡ 0 → q.pending_workers ≡ 0)
    → AtRest c p
    → AtRest c q
AtRest-later idle p q e l z h = (omega (arith, h.0), z h.1)
AtRest-later claiming p q e l z h = tt
AtRest-later (busy j) p q e l z h = tt
AtRest-later waiting p q e l z h = omega arith

worker_wakes-IsShared :
    (p : Pool) (i seen : ℕ)
    → get_elem? p.workers i ≡ some (sleeping seen)
    → IsShared p
    → IsShared (worker_wakes i p)
unfolding worker_wakes
worker_wakes-IsShared p i seen e h =
    let set_to = λ (f : Worker → ℕ) (w : Worker). total-set f p.workers i (sleeping seen) w e in
    elim (Bool-cases (leb p.helper_target p.claimed_workers)) [
      | inl full ↦ rw full (record {
        slots = h.slots;
        awaited = omega (arith, h.awaited, set_to active (sleeping p.generation));
        rest = AtRest-later p.caller p _ refl (omega arith) (λ z. z) h.rest;
        once = λ k. omega (arith, h.once k, set_to (at_worker k) (sleeping p.generation));
      })
      | inr free ↦ rw free (record {
        slots = ground (arith, free);
        awaited = omega (arith, h.awaited, set_to active (draining p.generation));
        rest = AtRest-later p.caller p _ refl (omega arith) (λ z. z) h.rest;
        once = λ k. omega (arith, h.once k, set_to (at_worker k) (draining p.generation));
      })
    ]

worker_claims-IsShared :
    (p : Pool) (i seen : ℕ)
    → get_elem? p.workers i ≡ some (draining seen)
    → IsShared p
    → IsShared (worker_claims i seen p)
unfolding worker_claims
worker_claims-IsShared p i seen e h =
    let set_to = λ (f : Worker → ℕ) (w : Worker). total-set f p.workers i (draining seen) w e in
    elim (Bool-cases (ltb p.cursor p.item_count)) [
      | inl more ↦ rw more (record {
        slots = h.slots;
        awaited = omega (arith, h.awaited, set_to active (working seen p.cursor));
        rest = AtRest-later p.caller p _ refl (omega arith) (λ z. z) h.rest;
        once = λ k. ground (arith, more, h.once k, set_to (at_worker k) (working seen p.cursor));
      })
      | inr over ↦ rw over (record {
        slots = h.slots;
        awaited = omega (arith, h.awaited, set_to active (leaving seen));
        rest = AtRest-later p.caller p _ refl (omega arith) (λ z. z) h.rest;
        once = λ k. ground (arith, over, h.once k, set_to (at_worker k) (leaving seen));
      })
    ]

finishes-IsShared :
    (p : Pool) (i seen item : ℕ)
    → get_elem? p.workers i ≡ some (working seen item)
    → IsShared p
    → IsShared (record p { workers = set p.workers i (draining seen); log = item ∷ p.log })
finishes-IsShared p i seen item e h =
    let set_to = λ (f : Worker → ℕ) (w : Worker). total-set f p.workers i (working seen item) w e in
    record {
      slots = h.slots;
      awaited = omega (arith, h.awaited, set_to active (draining seen));
      rest = AtRest-later p.caller p _ refl (omega arith) (λ z. z) h.rest;
      once = λ k. omega (arith, h.once k, set_to (at_worker k) (draining seen));
    }

leaves-IsShared :
    (p : Pool) (i seen : ℕ)
    → get_elem? p.workers i ≡ some (leaving seen)
    → IsShared p
    → IsShared (record p {
      workers = set p.workers i (sleeping seen);
      pending_workers = p.pending_workers - 1;
    })
leaves-IsShared p i seen e h =
    let set_to = λ (f : Worker → ℕ) (w : Worker). total-set f p.workers i (leaving seen) w e in
    record {
      slots = h.slots;
      awaited = omega (arith, h.slots, h.awaited, set_to active (sleeping seen));
      rest = AtRest-later p.caller p _ refl (omega arith) (λ z. omega arith) h.rest;
      once = λ k. omega (arith, h.once k, set_to (at_worker k) (sleeping seen));
    }

Step-IsShared : (p q : Pool) → Step p q → IsShared p → IsShared q
Step-IsShared _ _ (Step.starts p n e l) h = start_run-IsShared n p e h
Step-IsShared _ _ (Step.claims p e) h = caller_claims-IsShared p e h
Step-IsShared _ _ (Step.works p item e) h = works-IsShared p item e h
Step-IsShared _ _ (Step.returns p e z) h = returns-IsShared p e z h
Step-IsShared _ _ (Step.wakes p i seen e new) h = worker_wakes-IsShared p i seen e h
Step-IsShared _ _ (Step.helps p i seen e) h = worker_claims-IsShared p i seen e h
Step-IsShared _ _ (Step.finishes p i seen item e) h = finishes-IsShared p i seen item e h
Step-IsShared _ _ (Step.leaves p i seen e) h = leaves-IsShared p i seen e h

-- In any interleaving of the caller and the workers, an item is never worked on twice, none that the
-- run does not have is worked on, and the helpers still awaited match the workers at work.
pub Steps-IsShared : (p q : Pool) → Steps p q → IsShared p → IsShared q
Steps-IsShared _ _ (Steps.done p) h = h
Steps-IsShared _ _ (Steps.then_step p q r s t) h = Step-IsShared q r t (Steps-IsShared p q s h)

-- When the caller is outside `run` again, after any steps, every item of the last run has been worked
-- on exactly once and no worker is at work.
pub run_barrier :
    (p q : Pool) (k : ℕ)
    → Steps p q
    → IsShared p
    → q.caller ≡ idle
    → (occurrences k q.log ≡ (if ltb k q.item_count then 1 else 0)) × (total active q.workers ≡ 0)
run_barrier p q k s h e =
    let kept = Steps-IsShared p q s h in
    let still = rest_at idle q e kept in
    let none_active : total active q.workers ≡ 0 =
      omega (arith, kept.slots, kept.awaited, still.1) in
    let at_k = at-active k q.workers in
    let o = once_at idle q e kept k in (ground (arith, o, at_k, none_active, still), none_active)
