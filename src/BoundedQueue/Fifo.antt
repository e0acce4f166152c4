-- ===== src/BoundedQueue/Fifo.antt =====
-- The contract of `BoundedQueue<T>`: a first-in first-out list of at most `cap` items, with a mark
-- that no more items come. It has the calls, their results and the behaviour, and no ring.
use gpsopen_cl.Prelude.{ℕ, Bool, true, false, ◌||◌, Option, none, some, List, [], ◌∷◌, ◌++◌}
use gpsopen_cl.Prelude.{ltb, leb, if◌then◌else◌, length}

-- A call that may block: it sleeps on its condition variable, or it returns.
pub data Outcome (R : Type 0) : Type 0 where
  waits : Outcome R
  returns : R → Outcome R

-- The calls of the threads, in the order in which they hold the mutex.
pub data Call (T : Type 0) : Type 0 where
  push try_push : T → Call T
  pop try_pop finish : Call T

-- What a caller sees: it sleeps; the Boolean result; the item that is written through `item`.
pub data Reply (T : Type 0) : Type 0 where
  asleep : Reply T
  answer : Bool → Option T → Reply T

pub record Fifo (T : Type 0) : Type 0 where
  pub items : List T
  pub finished : Bool

module _ {T : Type 0} where
  unfoldable pub append : T → Fifo T → Reply T × Fifo T
  append x f = (answer true none, record f { items = f.items ++ (x ∷ []) })

  unfoldable pub take_first : List T → Bool → Reply T × Fifo T
  take_first [] fin = (answer false none, record { items = []; finished = fin })
  take_first (x ∷ xs) fin = (answer true (some x), record { items = xs; finished = fin })

module _ {T : Type 0} (cap : ℕ) where
  -- A push returns false once the queue is finished, and sleeps on a full one. A pop returns false
  -- on an empty finished queue and sleeps on an empty one that may still be fed.
  unfoldable pub call : Call T → Fifo T → Reply T × Fifo T
  unfolding append take_first
  call (push x) f =
      if f.finished
      then (answer false none, f)
      else if ltb (length f.items) cap
      then append x f
      else (asleep, f)
  call (try_push x) f =
      if f.finished || leb cap (length f.items) then (answer false none, f) else append x f
  call pop f =
      if ltb 0 (length f.items) || f.finished then take_first f.items f.finished else (asleep, f)
  call try_pop f = take_first f.items f.finished
  call finish f = (answer true none, record f { finished = true })

  unfoldable pub run : List (Call T) → Fifo T → List (Reply T) × Fifo T
  unfolding call
  run [] f = ([], f)
  run (c ∷ cs) f = let (r, f') = call c f in let (rs, f'') = run cs f' in (r ∷ rs, f'')
