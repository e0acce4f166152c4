-- ===== src/BoundedQueue.antt =====
-- `BoundedQueue<T>` of Source/Common/GPSOpenClBoundedQueue.hpp: a ring of fixed size behind a mutex.
-- Each method runs under the mutex, so it is one step on the state. A wait on a condition variable
-- whose predicate is false is the result `waits`: the caller sleeps and the queue is as it was.
pub mod Fifo
pub mod Invariant
pub mod Refine
pub mod Drain
mod Tests
use gpsopen_cl.Prelude.{ℕ, ◌+◌, ◌-◌, ◌%◌, ◌^◌, Bool, true, false, ◌&&◌, ◌||◌, Option, none}
use gpsopen_cl.Prelude.{List, ltb, leb, ◌==◌, if◌then◌else◌, get_elem?, set, replicate}
use gpsopen_cl.BoundedQueue.Fifo.{Outcome, waits, returns}

-- The members, less the mutex and the condition variables.
pub record BoundedQueue (T : Type 0) : Type 0 where
  pub storage : List T
  pub max_capacity : ℕ
  pub head : ℕ
  pub count : ℕ
  pub finished : Bool

-- `size_t` addition.
abbrev pub add_size : ℕ → ℕ → ℕ
add_size a b = (a + b) % 2 ^ 64

module _ {T : Type 0} where
  -- The constructor: `T` is default constructible, and `fill` is its default value.
  pub make : T → ℕ → BoundedQueue T
  make fill max_capacity =
      let size = if max_capacity == 0 then 1 else max_capacity in
      record {
        storage = replicate size fill;
        max_capacity = size;
        head = 0;
        count = 0;
        finished = false;
      }

  -- the slot that an append writes
  abbrev pub tail : BoundedQueue T → ℕ
  tail q = add_size q.head q.count % q.max_capacity

  pub enqueue_locked : T → BoundedQueue T → BoundedQueue T
  enqueue_locked item q = record q {
    storage = set q.storage (tail q) item;
    count = add_size q.count 1;
  }

  -- The option is what is moved out through `item`; `count--` runs only at a positive count.
  pub dequeue_locked : BoundedQueue T → Option T × BoundedQueue T
  dequeue_locked q = (
    get_elem? q.storage q.head,
    record q { head = add_size q.head 1 % q.max_capacity; count = q.count - 1 },
  )

  unfoldable pub push : T → BoundedQueue T → Outcome (Bool × BoundedQueue T)
  push item q =
      if ltb q.count q.max_capacity || q.finished
      then returns (if q.finished then (false, q) else (true, enqueue_locked item q))
      else waits

  unfoldable pub try_push : T → BoundedQueue T → Bool × BoundedQueue T
  try_push item q =
      if q.finished || leb q.max_capacity q.count then (false, q) else (true, enqueue_locked item q)

  -- `none` where the item is not written.
  unfoldable pub pop : BoundedQueue T → Outcome (Bool × Option T × BoundedQueue T)
  pop q =
      if ltb 0 q.count || q.finished
      then returns (
          if (q.count == 0) && q.finished
          then (false, none, q)
          else let (item, rest) = dequeue_locked q in (true, item, rest))
      else waits

  unfoldable pub try_pop : BoundedQueue T → Bool × Option T × BoundedQueue T
  try_pop q =
      if q.count == 0
      then (false, none, q)
      else let (item, rest) = dequeue_locked q in (true, item, rest)

  unfoldable pub finish : BoundedQueue T → BoundedQueue T
  finish q = record q { finished = true }
