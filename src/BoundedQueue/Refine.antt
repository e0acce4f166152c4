-- ===== src/BoundedQueue/Refine.antt =====
-- A valid ring behaves as the list of the items that it holds.
use native.Mathlib.Nat.{mod-eq_of_lt, mod-eq-sub-mod, mod-add-mod, add-zero}
use native.Mathlib.Decide.{dec_lt}
use gpsopen_cl.Prelude.{ℕ, zero, suc, ◌+◌, ◌-◌, ◌%◌, ◌≤◌, ◌<◌, ◌≡◌, refl, ap, ◌∙◌, ◌≢◌}
use gpsopen_cl.Prelude.{false, some, List, [], ◌∷◌, ◌++◌, arith}
use gpsopen_cl.Prelude.{length, get_elem?, get_elem?-set_self, get_elem?-set_ne, length-append}
use gpsopen_cl.Prelude.{if◌then◌else◌, ◌==◌}
use gpsopen_cl.BoundedQueue.{BoundedQueue, tail, push, try_push, pop, try_pop, finish}
use gpsopen_cl.BoundedQueue.{enqueue_locked, dequeue_locked, add_size}
use gpsopen_cl.BoundedQueue.Fifo
use gpsopen_cl.BoundedQueue.Fifo.{Fifo, Call, Reply, answer, asleep}
use gpsopen_cl.BoundedQueue.Invariant.{
  IsValid, in_bounds, call, run, max_capacity-call, make-IsValid,
}
use mathlib.Core.Path.{ap₂}
use gpsopen_cl.Prelude.{◌^◌, ◌≤◌, List, false}
use gpsopen_cl.BoundedQueue.{make}
use gpsopen_cl.BoundedQueue.Invariant.{enqueue_locked-IsValid, dequeue_locked-IsValid}

-- The ring `q` holds the items of `f`, oldest first from the head on.
pub record Holds {T : Type 0} (q : BoundedQueue T) (f : Fifo T) : Type 0 where
  pub valid : IsValid q
  pub counted : q.count ≡ length f.items
  pub mark : q.finished ≡ f.finished
  pub slots :
      (i : ℕ)
      → i < q.count
      → get_elem? q.storage ((q.head + i) % q.max_capacity) ≡ get_elem? f.items i

-- Fewer than `cap` steps round the ring do not come back to the same slot.
add-mod-ne : {cap : ℕ} (h i n : ℕ) → h < cap → i < n → n < cap → (h + n) % cap ≢ (h + i) % cap
add-mod-ne {cap} h i n hh hi hn = elim (dec_lt (h + n) cap) [
  | yes p ↦ omega (arith, mod-eq_of_lt p, mod-eq_of_lt {n = h + i} {m = cap} (omega arith))
  | no p ↦ elim (dec_lt (h + i) cap) [
    | yes r ↦ omega (
      arith,
      mod-eq_of_lt r,
      mod-eq-sub-mod {n = h + n} {m = cap} (omega arith),
      mod-eq_of_lt {n = h + n - cap} {m = cap} (omega arith),
    )
    | no r ↦ omega (
      arith,
      mod-eq-sub-mod {n = h + n} {m = cap} (omega arith),
      mod-eq_of_lt {n = h + n - cap} {m = cap} (omega arith),
      mod-eq-sub-mod {n = h + i} {m = cap} (omega arith),
      mod-eq_of_lt {n = h + i - cap} {m = cap} (omega arith),
    )
  ]
]

module _ {T : Type 0} where
  get_elem?-append :
      (xs : List T) (x : T) (i : ℕ)
      → get_elem? (xs ++ (x ∷ [])) i ≡ (if i == length xs then some x else get_elem? xs i)
  get_elem?-append [] x zero = refl
  get_elem?-append [] x (suc i) = ground arith
  get_elem?-append (y ∷ xs) x zero = ground arith
  get_elem?-append (y ∷ xs) x (suc i) = get_elem?-append xs x i ∙ ground arith

  pub enqueue_locked-Holds :
      {q : BoundedQueue T} {f : Fifo T} (x : T)
      → Holds q f
      → q.count < q.max_capacity
      → Holds (enqueue_locked x q) (record f { items = f.items ++ (x ∷ []) })
  unfolding enqueue_locked
  enqueue_locked-Holds {q} {f} x k h = record {
    valid = enqueue_locked-IsValid x k.valid h;
    counted = omega (arith, length-append f.items (x ∷ []), k.counted, in_bounds k.valid);
    mark = k.mark;
    slots = λ i p. ground (
      arith,
      in_bounds k.valid,
      k.counted,
      k.slots i,
      get_elem?-append f.items x i,
      get_elem?-set_self q.storage (tail q) x,
      get_elem?-set_ne q.storage {i = tail q} {j = (q.head + i) % q.max_capacity} x,
      add-mod-ne {cap = q.max_capacity} q.head i q.count,
    );
  }

  -- The oldest item is the one at the head, and what is left is held from the next slot on.
  pub dequeue_locked-Holds :
      {q : BoundedQueue T} {f : Fifo T} (x : T) (xs : List T)
      → Holds q f
      → f.items ≡ x ∷ xs
      → ((dequeue_locked q).0 ≡ some x) × Holds (dequeue_locked q).1 (record f { items = xs })
  unfolding dequeue_locked
  dequeue_locked-Holds {q} {f} x xs k e =
      let counted : q.count ≡ suc (length xs) = omega (arith, k.counted, ap length e) in
      (
        rw (← mod-eq_of_lt k.valid.head_in, ← add-zero q.head)
            (k.slots 0 (omega arith) ∙ ap (λ l. get_elem? l 0) e),
        record {
          valid = dequeue_locked-IsValid k.valid;
          counted = omega arith;
          mark = k.mark;
          slots = λ i p.
              (ap (get_elem? q.storage) (shift i)
                ∙ k.slots (suc i) (omega arith)
                ∙ ap (λ l. get_elem? l (suc i)) e);
        },
      )
    where
      shift :
          (i : ℕ)
          → (add_size q.head 1 % q.max_capacity + i) % q.max_capacity
            ≡ (q.head + suc i) % q.max_capacity
      shift i = rw ((in_bounds k.valid).2, mod-add-mod) (ap (λ n. n % q.max_capacity) (omega arith))

  -- The two guards of a pop, on the state and on its list.
  take_first-Holds :
      {q : BoundedQueue T} {f : Fifo T}
      → Holds q f
      → let (b, x, q') = try_pop q in
        let (r, f') = Fifo.take_first f.items f.finished in (answer b x ≡ r) × Holds q' f'
  unfolding try_pop Fifo.take_first
  take_first-Holds {q} {f} k = split f.items refl
    where
      split :
          (l : List T)
          → f.items ≡ l
          → let (b, x, q') = try_pop q in
            let (r, f') = Fifo.take_first l f.finished in (answer b x ≡ r) × Holds q' f'
      split [] e =
          let empty : q.count ≡ 0 = omega (arith, k.counted, ap length e) in
          ground (arith, k, empty)
      split (x ∷ xs) e =
          let some_left : q.count ≢ 0 = omega (arith, k.counted, ap length e) in
          ground (arith, dequeue_locked-Holds x xs k e, k.mark)

  -- Each call answers as on the list, and leaves the ring holding the list that is left.
  pub call_refines :
      {q : BoundedQueue T} {f : Fifo T} (c : Call T)
      → Holds q f
      → let (r, q') = call c q in
        let (r', f') = Fifo.call q.max_capacity c f in (r ≡ r') × Holds q' f'
  unfolding call Fifo.call push try_push pop try_pop finish Fifo.append
  call_refines {q} {f} (Call.push x) k =
      ground (arith, k, k.mark, k.counted, enqueue_locked-Holds x k)
  call_refines {q} {f} (Call.try_push x) k =
      ground (arith, k, k.mark, k.counted, enqueue_locked-Holds x k)
  call_refines {q} {f} Call.pop k = ground (arith, k, k.mark, k.counted, take_first-Holds k)
  call_refines {q} {f} Call.try_pop k = take_first-Holds k
  call_refines {q} {f} Call.finish k = (refl, ground (arith, k))

  -- Any sequence of calls on a ring that holds a list gets the replies that the bounded list gives,
  -- the calls that sleep included, and leaves the ring holding the list that is left.
  pub run_refines :
      (cs : List (Call T)) {q : BoundedQueue T} {f : Fifo T}
      → Holds q f
      → let (rs, q') = run cs q in
        let (rs', f') = Fifo.run q.max_capacity cs f in (rs ≡ rs') × Holds q' f'
  unfolding run Fifo.run
  run_refines [] k = (refl, k)
  run_refines (c ∷ cs) {q} {f} k =
      let (same, held) = call_refines c k in
      let rest = rw (max_capacity-call c q) at (run_refines cs held) in
      (ap₂ ◌∷◌ same rest.0, rest.1)

  -- A new queue of a capacity of at most 2 ^ 63, also 0, holds the empty list.
  pub make-Holds :
      (fill : T) (n : ℕ)
      → n ≤ 2 ^ 63
      → Holds (make fill n) (record { items = []; finished = false })
  unfolding make
  make-Holds fill n h = record {
    valid = make-IsValid fill n h;
    counted = refl;
    mark = refl;
    slots = λ i p. absurd (omega arith);
  }
