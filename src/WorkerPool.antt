-- ===== src/WorkerPool.antt =====
-- The worker pool of Source/Tracking/GPSOpenClTrackingWorkerPool.cpp as a step relation: `run` on the
-- caller's thread, `workerLoop` on each worker's and `drainCursor` on both. What runs under the mutex
-- and the atomic increment of the cursor are one step each, in any interleaving. A wake-up by the
-- condition variable is allowed whenever its predicate holds. The generation is a `uint64_t`, which no
-- program counts round. The destructor's shutdown and the time measurements are left out.
pub mod Once
mod Tests
use gpsopen_cl.Prelude.{
  ℕ, zero, suc, ◌+◌, ◌-◌, ◌<◌, ◌≡◌, ◌≢◌, Bool, List, [], ◌∷◌, Option, some, none,
}
use gpsopen_cl.Prelude.{ltb, leb, ◌==◌, if◌then◌else◌, get_elem?, set, length, min}

-- Where a worker stands, with the generation that it has seen last.
pub data Worker : Type 0 where
  sleeping : ℕ → Worker
  draining : ℕ → Worker
  working : ℕ → ℕ → Worker
  leaving : ℕ → Worker

-- Where the caller stands: outside `run`, in its own `drainCursor`, or at the barrier.
pub data Caller : Type 0 where
  idle : Caller
  claiming : Caller
  busy : ℕ → Caller
  waiting : Caller

-- The members, with the threads, and the items of this run that have been worked on.
pub record Pool : Type 0 where
  pub item_count : ℕ
  pub cursor : ℕ
  pub pending_workers : ℕ
  pub helper_target : ℕ
  pub claimed_workers : ℕ
  pub generation : ℕ
  pub caller : Caller
  pub workers : List Worker
  pub log : List ℕ

-- The helpers of a run; 0 where there are no worker threads.
abbrev pub helpers : Pool → ℕ → ℕ
helpers p n = min (length p.workers) (n - 1)

-- `run` up to the draining: inline without helpers, else a new generation.
unfoldable pub start_run : ℕ → Pool → Pool
start_run n p =
    if helpers p n == 0
    then record p { item_count = n; cursor = 0; caller = claiming; log = [] }
    else record p {
      item_count = n;
      cursor = 0;
      pending_workers = helpers p n;
      helper_target = helpers p n;
      claimed_workers = 0;
      generation = p.generation + 1;
      caller = claiming;
      log = [];
    }

-- The increment of the cursor by the caller, or by worker `i`.
unfoldable pub caller_claims : Pool → Pool
caller_claims p = record p {
  cursor = p.cursor + 1;
  caller = if ltb p.cursor p.item_count then busy p.cursor else waiting;
}

unfoldable pub worker_claims : ℕ → ℕ → Pool → Pool
worker_claims i seen p = record p {
  cursor = p.cursor + 1;
  workers =
      set p.workers i (if ltb p.cursor p.item_count then working seen p.cursor else leaving seen);
}

-- A worker whose predicate holds takes a slot, or goes back to sleep if all are taken.
unfoldable pub worker_wakes : ℕ → Pool → Pool
worker_wakes i p =
    if leb p.helper_target p.claimed_workers
    then record p { workers = set p.workers i (sleeping p.generation) }
    else record p {
      claimed_workers = p.claimed_workers + 1;
      workers = set p.workers i (draining p.generation);
    }

pub data Step : Pool → Pool → Type 0 where
  starts : (p : Pool) (n : ℕ) → p.caller ≡ idle → 0 < n → Step p (start_run n p)
  claims : (p : Pool) → p.caller ≡ claiming → Step p (caller_claims p)
  works :
      (p : Pool) (item : ℕ)
      → p.caller ≡ busy item
      → Step p (record p { caller = claiming; log = item ∷ p.log })
  returns :
      (p : Pool) → p.caller ≡ waiting → p.pending_workers ≡ 0 → Step p (record p { caller = idle })
  wakes :
      (p : Pool) (i seen : ℕ)
      → get_elem? p.workers i ≡ some (sleeping seen)
      → p.generation ≢ seen
      → Step p (worker_wakes i p)
  helps :
      (p : Pool) (i seen : ℕ)
      → get_elem? p.workers i ≡ some (draining seen)
      → Step p (worker_claims i seen p)
  finishes :
      (p : Pool) (i seen item : ℕ)
      → get_elem? p.workers i ≡ some (working seen item)
      → Step p (record p { workers = set p.workers i (draining seen); log = item ∷ p.log })
  leaves :
      (p : Pool) (i seen : ℕ)
      → get_elem? p.workers i ≡ some (leaving seen)
      → Step p (record p {
        workers = set p.workers i (sleeping seen);
        pending_workers = p.pending_workers - 1;
      })

-- Any number of steps.
pub data Steps : Pool → Pool → Type 0 where
  done : (p : Pool) → Steps p p
  then_step : (p q r : Pool) → Steps p q → Step q r → Steps p r
