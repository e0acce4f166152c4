-- ===== src/Channel/Cursors.antt =====
-- Compaction while the phase is still searched: what happens to the cursors.
use gpsopen_cl.Prelude.{ℕ, zero, suc, ◌+◌, ◌*◌, ◌/◌, ◌≤◌, ◌<◌, ◌≡◌, refl, ap}
use gpsopen_cl.Prelude.{false, List, [], ◌∷◌, length, drop, ◌==◌, ◌⊎◌, inl}
use gpsopen_cl.Prelude.{inr, arith, min, map, get_or}
use gpsopen_cl.Prelude.Int.{negsuc}
use gpsopen_cl.Channel.State.{Navigation}
use gpsopen_cl.Channel.History.{drop_search, least_from, drop_samples, rebase_sync, dropped}
use gpsopen_cl.Channel.History.{drop_history, compact_navigation_history, rebase_cursor}
use gpsopen_cl.Channel.Compact.{dropped-cases}

least_from-start : (least : ℕ) (ps : List ℕ) → least_from least ps ≤ least
unfolding least_from
least_from-start least [] = omega arith
least_from-start least (p ∷ ps) = omega (arith, least_from-start (min least p) ps)

least_from-member :
    (least : ℕ) (ps : List ℕ) (k d : ℕ) → k < length ps → least_from least ps ≤ get_or ps k d
unfolding least_from
least_from-member least [] k d m = absurd (omega arith)
least_from-member least (p ∷ ps) zero d m = omega (arith, least_from-start (min least p) ps)
least_from-member least (p ∷ ps) (suc k) d m = least_from-member (min least p) ps k d (omega arith)

drop_search-bounds :
    (ps : List ℕ) (n : ℕ)
    → drop_search ps ≡ n
    → 0 < n
    → (n ≡ n / 20 * 20) × ((k d : ℕ) → k < length ps → n / 20 + 2 ≤ get_or ps k d)
unfolding drop_search
drop_search-bounds [] n e h = absurd (omega arith)
drop_search-bounds (p ∷ ps) n e h =
    let bits : (n ≡ n / 20 * 20) × (n / 20 + 2 ≡ least_from p (p ∷ ps)) = ground arith in
    (bits.0, λ k d m. (let one = least_from-member p (p ∷ ps) k d m in omega (arith, bits.1, one)))

get_or-map :
    (f : ℕ → ℕ) (ps : List ℕ) (k : ℕ) → k < length ps → get_or (map f ps) k 0 ≡ f (get_or ps k 0)
get_or-map f [] k m = absurd (omega arith)
get_or-map f (p ∷ ps) zero m = refl
get_or-map f (p ∷ ps) (suc k) m = get_or-map f ps k (omega arith)

module _ {F D : Type 0} where
  abbrev pub searching_at : ℕ → List ℕ → Navigation F D → Navigation F D
  searching_at m positions nav = record nav {
    sync = record {
      bit_sync_phase = negsuc m;
      search_positions = positions;
      bit_offset = nav.sync.bit_offset;
    };
  }

  -- A compaction while the phase is searched: the same of every cursor.
  pub record IsSearchRebased (positions : List ℕ) (nav after : Navigation F D) : Type 0 where
    pub bits : ℕ
    pub within : bits * 20 ≤ length nav.prompt_history
    pub prompts : after.prompt_history ≡ drop (bits * 20) nav.prompt_history
    pub phases : after.code_phase_history ≡ drop (bits * 20) nav.code_phase_history
    pub drifts :
        after.cumulative_drift_chips_history ≡ drop (bits * 20) nav.cumulative_drift_chips_history
    pub cursors :
        (k : ℕ)
        → k < length positions
        → (bits + get_or after.sync.search_positions k 0 ≡ get_or positions k 0)
          × ((bits ≡ 0) ⊎ (2 ≤ get_or after.sync.search_positions k 0))

  drop_history-IsSearchRebased :
      (m : ℕ) (positions : List ℕ) (n : ℕ) (nav : Navigation F D)
      → n ≡ n / 20 * 20
      → ((k d : ℕ) → k < length positions → n / 20 + 2 ≤ get_or positions k d)
      → n ≤ length nav.prompt_history
      → IsSearchRebased positions nav (drop_history n (searching_at m positions nav))
  unfolding drop_history rebase_sync
  drop_history-IsSearchRebased m positions n nav whole far fits = record {
    bits = n / 20;
    within = omega arith;
    prompts = ap (λ k. drop k nav.prompt_history) whole;
    phases = ap (λ k. drop k nav.code_phase_history) whole;
    drifts = ap (λ k. drop k nav.cumulative_drift_chips_history) whole;
    cursors = λ k l.
        (let here = far k 0 l in
          let moved = get_or-map (rebase_cursor (n / 20)) positions k l in
          ground (arith, here, moved));
  }

  -- While the phase is searched, a compaction moves every cursor down by the bits that it drops:
  -- none is cut off at 0, and two bits are left before each.
  pub compact-IsSearchRebased :
      (m : ℕ) (positions : List ℕ) (nav : Navigation F D)
      → IsSearchRebased positions nav (compact_navigation_history (searching_at m positions nav))
  unfolding compact_navigation_history drop_samples
  compact-IsSearchRebased m positions nav =
      let n = dropped (searching_at m positions nav) in
      elim (dropped-cases (searching_at m positions nav)) [
        | inl none_dropped ↦ rw none_dropped (record {
          bits = 0;
          within = omega arith;
          prompts = refl;
          phases = refl;
          drifts = refl;
          cursors = λ k l. (omega arith, inl refl);
        })
        | inr (some_dropped, e, fits) ↦
            let bounds = drop_search-bounds positions n e some_dropped in
            let nonzero : (n == 0) ≡ false = ground arith in
            rw nonzero (drop_history-IsSearchRebased m positions n nav bounds.0 bounds.1 fits)
      ]
