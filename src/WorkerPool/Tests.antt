-- ===== src/WorkerPool/Tests.antt =====
-- A run of two items with one worker, and the theorems at it.
use gpsopen_cl.Prelude.{◌≡◌, refl, ltb, if◌then◌else◌, arith, [], ◌∷◌}
use gpsopen_cl.WorkerPool.{sleeping, Pool, idle, claiming, start_run, caller_claims, worker_wakes}
use gpsopen_cl.WorkerPool.{Step, Steps}
use gpsopen_cl.WorkerPool.Once.{IsShared, occurrences, total, active, run_barrier}

abbrev new_pool : Pool
new_pool = record {
  item_count = 0;
  cursor = 0;
  pending_workers = 0;
  helper_target = 0;
  claimed_workers = 0;
  generation = 0;
  caller = idle;
  workers = sleeping 0 ∷ [];
  log = [];
}

new_pool-IsShared : IsShared new_pool
new_pool-IsShared = record {
  slots = omega arith;
  awaited = refl;
  rest = (omega arith, refl);
  once = λ k. ground arith;
}

-- The caller starts, and the worker takes the slot.
abbrev started : Pool
started = start_run 2 new_pool

first_moves : Steps new_pool (worker_wakes 0 started)
unfolding start_run
first_moves =
    Steps.then_step new_pool started (worker_wakes 0 started)
      (Steps.then_step new_pool new_pool started (Steps.done new_pool)
        (Step.starts new_pool 2 refl (omega arith)))
      (Step.wakes started 0 0 refl (λ e. cc))

-- A run of one item, which the caller works on inline.
abbrev inline : Pool
inline = start_run 1 new_pool

abbrev claimed : Pool
claimed = caller_claims inline

abbrev worked : Pool
worked = record claimed { caller = claiming; log = 0 ∷ claimed.log }

abbrev drained : Pool
drained = caller_claims worked

abbrev ended : Pool
ended = record drained { caller = idle }

inline_moves : Steps new_pool ended
unfolding start_run caller_claims
inline_moves =
    Steps.then_step new_pool drained ended
      (Steps.then_step new_pool worked drained
        (Steps.then_step new_pool claimed worked
          (Steps.then_step new_pool inline claimed
            (Steps.then_step new_pool new_pool inline (Steps.done new_pool)
              (Step.starts new_pool 1 refl (omega arith)))
            (Step.claims inline refl))
          (Step.works claimed 0 refl))
        (Step.claims worked refl))
      (Step.returns drained refl refl)

run_barrier_example :
    (occurrences 0 ended.log ≡ (if ltb 0 ended.item_count then 1 else 0))
    × (total active ended.workers ≡ 0)
run_barrier_example = run_barrier new_pool ended 0 inline_moves new_pool-IsShared refl
