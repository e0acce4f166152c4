-- ===== src/BoundedQueue/Invariant.antt =====
-- The representation invariant of the ring, and the run of a sequence of calls.
use gpsopen_cl.Prelude.{ℕ, ◌+◌, ◌^◌, ◌≤◌, ◌<◌, ◌≡◌, refl, Bool, true, Option, none, List, [], ◌∷◌}
use gpsopen_cl.Prelude.{arith, length, length-set, length-replicate, if◌then◌else◌, ◌==◌}
use gpsopen_cl.BoundedQueue.{BoundedQueue, make, tail, push, try_push, pop, try_pop, finish}
use gpsopen_cl.BoundedQueue.{enqueue_locked, dequeue_locked, add_size}
use gpsopen_cl.BoundedQueue.Fifo.{Outcome, waits, returns, Call, Reply, asleep, answer}

pub record IsValid {T : Type 0} (q : BoundedQueue T) : Type 0 where
  pub storage : length q.storage ≡ q.max_capacity
  pub small : q.max_capacity ≤ 2 ^ 63
  pub head_in : q.head < q.max_capacity
  pub count_in : q.count ≤ q.max_capacity

module _ {T : Type 0} where
  -- What a call leaves, and what its caller sees.
  unfoldable pub after_push :
      BoundedQueue T → Outcome (Bool × BoundedQueue T) → Reply T × BoundedQueue T
  after_push q waits = (asleep, q)
  after_push q (returns (b, q')) = (answer b none, q')

  unfoldable pub after_pop :
      BoundedQueue T → Outcome (Bool × Option T × BoundedQueue T) → Reply T × BoundedQueue T
  after_pop q waits = (asleep, q)
  after_pop q (returns (b, x, q')) = (answer b x, q')

  unfoldable pub call : Call T → BoundedQueue T → Reply T × BoundedQueue T
  unfolding after_push after_pop
  call (Call.push x) q = after_push q (push x q)
  call (Call.try_push x) q = let (b, q') = try_push x q in (answer b none, q')
  call Call.pop q = after_pop q (pop q)
  call Call.try_pop q = let (b, x, q') = try_pop q in (answer b x, q')
  call Call.finish q = (answer true none, finish q)

  unfoldable pub run : List (Call T) → BoundedQueue T → List (Reply T) × BoundedQueue T
  unfolding call
  run [] q = ([], q)
  run (c ∷ cs) q = let (r, q') = call c q in let (rs, q'') = run cs q' in (r ∷ rs, q'')

  -- No `size_t` sum of the ring wraps, and both slots that it uses are inside the storage.
  pub in_bounds :
      {q : BoundedQueue T}
      → IsValid q
      → (add_size q.head q.count ≡ q.head + q.count)
        × (add_size q.count 1 ≡ q.count + 1)
        × (add_size q.head 1 ≡ q.head + 1)
        × (tail q < length q.storage)
        × (q.head < length q.storage)
  in_bounds v = omega arith

  -- The constructor gives a valid queue, also for the capacity 0, which it reads as 1.
  pub make-IsValid : (fill : T) (n : ℕ) → n ≤ 2 ^ 63 → IsValid (make fill n)
  unfolding make
  make-IsValid fill n h = ground (arith, length-replicate (if n == 0 then 1 else n) fill)

  pub enqueue_locked-IsValid :
      {q : BoundedQueue T} (x : T)
      → IsValid q
      → q.count < q.max_capacity
      → IsValid (enqueue_locked x q)
  unfolding enqueue_locked
  enqueue_locked-IsValid {q} x v h = ground (arith, length-set q.storage (tail q) x)

  pub dequeue_locked-IsValid : {q : BoundedQueue T} → IsValid q → IsValid (dequeue_locked q).1
  unfolding dequeue_locked
  dequeue_locked-IsValid v = ground arith

  -- Every call keeps the invariant.
  pub call-IsValid : {q : BoundedQueue T} (c : Call T) → IsValid q → IsValid (call c q).1
  unfolding call push try_push pop try_pop finish enqueue_locked dequeue_locked
  call-IsValid {q} (Call.push x) v = ground (arith, length-set q.storage (tail q) x)
  call-IsValid {q} (Call.try_push x) v = ground (arith, length-set q.storage (tail q) x)
  call-IsValid Call.pop v = ground arith
  call-IsValid Call.try_pop v = ground arith
  call-IsValid Call.finish v = ground arith

  pub max_capacity-call :
      (c : Call T) (q : BoundedQueue T) → (call c q).1.max_capacity ≡ q.max_capacity
  unfolding call push try_push pop try_pop finish enqueue_locked dequeue_locked
  max_capacity-call (Call.push x) q = ground arith
  max_capacity-call (Call.try_push x) q = ground arith
  max_capacity-call Call.pop q = ground arith
  max_capacity-call Call.try_pop q = ground arith
  max_capacity-call Call.finish q = refl
