-- ===== src/BoundedQueue/Drain.antt =====
-- What the queue promises to producers and consumers over a whole run.
use gpsopen_cl.Prelude.{ℕ, ◌+◌, ◌≡◌, refl, Bool, true, false, none, some, List, [], ◌∷◌, ◌++◌}
use gpsopen_cl.Prelude.{arith, length, map, replicate}
use mathlib.Core.List.{append_assoc, append-nil}
use native.Mathlib.Nat.{zero-add, suc-add}
use gpsopen_cl.Prelude.{zero, suc, ap, ◌∙◌}
use gpsopen_cl.BoundedQueue.{BoundedQueue}
use gpsopen_cl.BoundedQueue.Fifo
use gpsopen_cl.BoundedQueue.Fifo.{Fifo, Call, Reply, answer, asleep}
use gpsopen_cl.BoundedQueue.Invariant.{run}
use gpsopen_cl.BoundedQueue.Refine.{Holds, run_refines}

module _ {T : Type 0} where
  -- The items that pushes put in, by their calls and replies.
  abbrev pub accepted : List (Call T) → List (Reply T) → List T
  accepted (Call.push x ∷ cs) (answer true o ∷ rs) = x ∷ accepted cs rs
  accepted (Call.try_push x ∷ cs) (answer true o ∷ rs) = x ∷ accepted cs rs
  accepted (c ∷ cs) (r ∷ rs) = accepted cs rs
  accepted _ _ = []

  -- The items that pops handed out.
  abbrev pub delivered : List (Reply T) → List T
  delivered (answer b (some x) ∷ rs) = x ∷ delivered rs
  delivered (r ∷ rs) = delivered rs
  delivered [] = []

  -- The list after an append, with its place in the sum of what went in.
  abbrev grown : T → Fifo T → Fifo T
  grown x f = record f { items = f.items ++ (x ∷ []) }

  -- On the list: what was there and what went in is what came out and what is left, in order.
  abbrev Kept : ℕ → List (Call T) → Fifo T → Type 0
  Kept cap cs f =
      let (rs, f') = Fifo.run cap cs f in f.items ++ accepted cs rs ≡ delivered rs ++ f'.items

  conserve : (cap : ℕ) (cs : List (Call T)) (f : Fifo T) → Kept cap cs f
  unfolding Fifo.run Fifo.call Fifo.append Fifo.take_first
  conserve cap [] f = append-nil f.items
  conserve cap (Call.push x ∷ cs) f = ground (
    arith,
    conserve cap cs f,
    conserve cap cs (grown x f),
    append_assoc f.items (x ∷ []) (accepted cs (Fifo.run cap cs (grown x f)).0),
  )
  conserve cap (Call.try_push x ∷ cs) f = ground (
    arith,
    conserve cap cs f,
    conserve cap cs (grown x f),
    append_assoc f.items (x ∷ []) (accepted cs (Fifo.run cap cs (grown x f)).0),
  )
  conserve cap (Call.pop ∷ cs) f = kept f.items f.finished (conserve cap cs)
    where
      kept :
          (l : List T) (b : Bool)
          → ((g : Fifo T) → Kept cap cs g)
          → Kept cap (Call.pop ∷ cs) (record { items = l; finished = b })
      kept [] true ih = ih (record { items = []; finished = true })
      kept [] false ih = ih (record { items = []; finished = false })
      kept (y ∷ ys) b ih = ground (arith, ih (record { items = ys; finished = b }))
  conserve cap (Call.try_pop ∷ cs) f = kept f.items f.finished (conserve cap cs)
    where
      kept :
          (l : List T) (b : Bool)
          → ((g : Fifo T) → Kept cap cs g)
          → Kept cap (Call.try_pop ∷ cs) (record { items = l; finished = b })
      kept [] b ih = ih (record { items = []; finished = b })
      kept (y ∷ ys) b ih = ap (λ l. y ∷ l) (ih (record { items = ys; finished = b }))
  conserve cap (Call.finish ∷ cs) f = conserve cap cs (record f { finished = true })

  -- Over any calls of any threads on a ring that holds a list, the items that were there followed
  -- by those accepted are those delivered followed by those that the ring still holds: nothing is
  -- lost, doubled or reordered.
  pub run_conserves :
      {q : BoundedQueue T} {f : Fifo T} (cs : List (Call T))
      → Holds q f
      → let (rs, q') = run cs q in
        (left : List T) × (fin : Bool) × Holds q' (record { items = left; finished = fin })
        × (f.items ++ accepted cs rs ≡ delivered rs ++ left)
  run_conserves {q} {f} cs k =
      let (same, held) = run_refines cs k in
      let end = (Fifo.run q.max_capacity cs f).1 in
      (end.items, end.finished, held, rw same (conserve q.max_capacity cs f))

  drained :
      (cap : ℕ) (l : List T) (more : ℕ)
      → (Fifo.run cap
          (replicate (length l + more) Call.pop)
          (record { items = l; finished = true })).0
        ≡ map (λ x. answer true (some x)) l ++ replicate more (answer false none)
  unfolding Fifo.run Fifo.call Fifo.take_first
  drained cap [] zero = refl
  drained cap [] (suc more) =
      rw zero-add (ap (λ rs. answer false none ∷ rs) (rw zero-add at (drained cap [] more)))
  drained cap (x ∷ xs) more = rw suc-add (ground (arith, drained cap xs more))

  -- Once the queue is finished no call sleeps: blocking pops hand out exactly the items that are
  -- held, in order, and every later pop returns false.
  pub finished_drain :
      {q : BoundedQueue T} (l : List T) (more : ℕ)
      → Holds q (record { items = l; finished = true })
      → (run (replicate (length l + more) Call.pop) q).0
        ≡ map (λ x. answer true (some x)) l ++ replicate more (answer false none)
  finished_drain {q} l more k =
      (run_refines (replicate (length l + more) Call.pop) k).0 ∙ drained q.max_capacity l more
