-- ===== src/BoundedQueue/Tests.antt =====
-- Runs of a small queue, and its theorems at concrete queues.
use gpsopen_cl.Prelude.{ℕ, zero, suc, ◌%◌, ◌<◌, ◌≡◌, refl, true, false, none, some, List, [], ◌∷◌}
use gpsopen_cl.Prelude.{arith, get_elem?, ◌+◌}
use gpsopen_cl.BoundedQueue.{BoundedQueue, make, push, try_push, pop, try_pop, finish}
use gpsopen_cl.BoundedQueue.{enqueue_locked, dequeue_locked}
use gpsopen_cl.BoundedQueue.Fifo
use gpsopen_cl.BoundedQueue.Fifo.{Fifo, Call, answer, asleep}
use gpsopen_cl.BoundedQueue.Invariant.{IsValid, run}
use gpsopen_cl.BoundedQueue.Refine.{Holds, run_refines}

-- 8, then 9, round the end of the storage.
abbrev wrapped : BoundedQueue ℕ
wrapped = record {
  storage = 9 ∷ 7 ∷ 8 ∷ [];
  max_capacity = 3;
  head = 2;
  count = 2;
  finished = false;
}

abbrev held : Fifo ℕ
held = record { items = 8 ∷ 9 ∷ []; finished = false }

abbrev script : List (Call ℕ)
script =
    Call.push 1
    ∷ Call.push 2
    ∷ Call.try_push 3
    ∷ Call.pop
    ∷ Call.finish
    ∷ Call.push 4
    ∷ Call.pop
    ∷ Call.try_pop
    ∷ Call.pop
    ∷ []

run-wrapped :
    (run script wrapped).0
    ≡ answer true none
      ∷ asleep
      ∷ answer false none
      ∷ answer true (some 8)
      ∷ answer true none
      ∷ answer false none
      ∷ answer true (some 9)
      ∷ answer true (some 1)
      ∷ answer false none
      ∷ []
unfolding run push try_push pop try_pop finish enqueue_locked dequeue_locked
run-wrapped = refl

make_zero : (make {T = ℕ} 0 0).max_capacity ≡ 1
unfolding make
make_zero = refl

wrapped-IsValid : IsValid wrapped
wrapped-IsValid = omega arith

wrapped-slots : (i : ℕ) → i < 2 → get_elem? wrapped.storage ((2 + i) % 3) ≡ get_elem? held.items i
wrapped-slots zero h = refl
wrapped-slots (suc zero) h = refl
wrapped-slots (suc (suc i)) h = absurd (omega arith)

wrapped-Holds : Holds wrapped held
wrapped-Holds = record {
  valid = wrapped-IsValid;
  counted = refl;
  mark = refl;
  slots = wrapped-slots;
}

ended-Holds : Holds (record wrapped { finished = true }) (record held { finished = true })
ended-Holds = record { valid = omega arith; counted = refl; mark = refl; slots = wrapped-slots }

run_refines_example :
    let (rs, q') = run script wrapped in
    let (rs', f') = Fifo.run 3 script held in (rs ≡ rs') × Holds q' f'
run_refines_example = run_refines script wrapped-Holds
