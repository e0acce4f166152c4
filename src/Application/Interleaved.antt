-- ===== src/Application/Interleaved.antt =====
-- A block keeps to one acquisition at a time, and so does any interleaving of blocks and thread.
use gpsopen_cl.Prelude.{
  ℕ, zero, suc, ◌≡◌, refl, ◌∙◌, Bool, true, false, Option, none, some, inl, inr,
}
use gpsopen_cl.Prelude.{List, [], ◌∷◌, map, Bool-cases, get_or, if_intro}
use gpsopen_cl.Float.{Floats}
use gpsopen_cl.Maths.{Maths}
use gpsopen_cl.Channel.Lock.{acquiring}
use gpsopen_cl.NavDecode.Subframe.{NavigationDecoder}
use gpsopen_cl.Channel.State.{Channel, Engine, is_tracking}
use gpsopen_cl.Channel.Metrics.{Metrics}
use gpsopen_cl.Pvt.Assemble.{Measurements, assemble}
use gpsopen_cl.Pvt.Position.{Answer}
use gpsopen_cl.Application.State.{Application, AcquisitionJob, BlockInput, state_at}
use gpsopen_cl.Application.Block.{
  blank_metrics, is_eligible, finalize_acquisition, received, receive, handed,
}
use gpsopen_cl.Application.Block.{hand_over, dispatch, track_channel, track_satellites}
use gpsopen_cl.Application.Pipeline.{update_one, update_channel_navigation, take_answer, fix_due}
use gpsopen_cl.Application.Pipeline.{solve_measured, compute_navigation_solution, navigate, fix}
use gpsopen_cl.Application.Pipeline.{process_block}
use gpsopen_cl.Application.Worker.{Step, Steps, block, take}
use gpsopen_cl.Application.Worker.{search, throw, tell, done, further}
use gpsopen_cl.Application.Flight.{landed, queued, under_way, over, answered, IsScheduled}
use gpsopen_cl.Application.Flight.{eligible_acquiring, try_pop_one, try_pop_empty, job_push, Keeps}
use gpsopen_cl.Application.Flight.{keep_flight, take_job-IsScheduled, end_search-IsScheduled}
use gpsopen_cl.Application.Flight.{report-IsScheduled}

module _ {T F D : Type 0} (fp : Floats F D) where
  update_one-Keeps :
      (c : Channel T F D) (decoder : NavigationDecoder D)
      → (update_one fp c decoder).0.lock ≡ c.lock
  unfolding update_one
  update_one-Keeps c decoder = elim (Bool-cases (is_tracking c.lock.state)) [
    | inl e ↦ rw (update_one, e) refl
    | inr e ↦ rw (update_one, e) refl
  ]

  update_channel_navigation-Keeps :
      (cs : List (Channel T F D)) (decoder : NavigationDecoder D)
      → Keeps cs (update_channel_navigation fp cs decoder).0
  unfolding update_channel_navigation state_at
  update_channel_navigation-Keeps [] decoder i h = h
  update_channel_navigation-Keeps (c ∷ cs) decoder zero h = rw (update_one-Keeps c decoder) h
  update_channel_navigation-Keeps (c ∷ cs) decoder (suc i) h =
      update_channel_navigation-Keeps cs (update_one fp c decoder).1 i h

  module _ {C : Type 0} (eng : Engine C T F) where
    track_channel-acquiring :
        (input : List (F × F)) (c : Channel T F D)
        → c.lock.state ≡ acquiring
        → track_channel fp eng input c ≡ c
    unfolding track_channel
    track_channel-acquiring input c h = rw (track_channel, h) refl

    track-Keeps :
        (input : List (F × F)) (cs : List (Channel T F D))
        → Keeps cs (map (track_channel fp eng input) cs)
    unfolding state_at
    track-Keeps input [] i h = h
    track-Keeps input (c ∷ cs) zero h =
        let same : c.lock.state ≡ acquiring = cc in rw (track_channel-acquiring input c same) h
    track-Keeps input (c ∷ cs) (suc i) h = track-Keeps input cs i h

    finalize_acquisition_keeps :
        (conf : BlockInput C F D) (i : ℕ) (app : Application T F D)
        → ((finalize_acquisition fp eng conf i app).jobs ≡ app.jobs)
          × ((finalize_acquisition fp eng conf i app).results ≡ app.results)
          × ((finalize_acquisition fp eng conf i app).searcher ≡ app.searcher)
    unfolding finalize_acquisition
    finalize_acquisition_keeps conf i app =
        elim (Bool-cases
          (fp.le_f conf.cn0_threshold (get_or app.metrics i (blank_metrics fp)).cn0)) [
            | inl e ↦ rw (finalize_acquisition, e) (refl, refl, refl)
            | inr e ↦ rw (finalize_acquisition, e) (refl, refl, refl)
          ]

    -- The flight after a result is taken up: it has landed.
    receive-IsScheduled :
        (conf : BlockInput C F D) (app : Application T F D)
        → IsScheduled app
        → IsScheduled (receive fp eng conf app)
    unfolding receive received
    receive-IsScheduled conf app h =
        let open_r = h.open_results in
        elim h.flight [
          | landed e1 e2 e3 e4 ↦ rw (receive, try_pop_empty app.results open_r e4, received) h
          | queued x e1 e2 e3 e4 a ↦ rw (receive, try_pop_empty app.results open_r e4, received) h
          | under_way x e1 e2 e3 e4 a ↦
              rw (receive, try_pop_empty app.results open_r e4, received) h
          | over x e1 e2 e3 e4 a ↦ rw (receive, try_pop_empty app.results open_r e4, received) h
          | answered x e1 e2 e3 e4 a ↦
              rw (receive, try_pop_one app.results open_r x e4, received)
                (let (jobs, results, searcher) =
                    finalize_acquisition_keeps conf x.channel_index
                      (record app { results = record { items = []; finished = false } }) in
                  record {
                    open_jobs = rw jobs h.open_jobs;
                    open_results = rw results refl;
                    flight = landed refl (rw jobs e2) (searcher ∙ e3) (rw results refl);
                  })
        ]

    hand_over-IsScheduled :
        (input : List (F × F)) (chosen : Option ℕ) (app : Application T F D)
        → app.acquisition_busy ≡ false
        → IsScheduled app
        → IsScheduled (hand_over fp eng input chosen app)
    unfolding hand_over handed
    hand_over-IsScheduled input none app e h = h
    hand_over-IsScheduled input (some i) app e h =
        elim (Bool-cases (is_eligible (state_at app.channels i))) [
          | inl f ↦ elim h.flight [
            | landed e1 e2 e3 e4 ↦
                let job : AcquisitionJob F = record { input = input; channel_index = i } in
                rw (hand_over, f, job_push app.jobs h.open_jobs job e2, handed)
                  (record {
                    open_jobs = refl;
                    open_results = h.open_results;
                    flight =
                        queued job refl refl e3 e4 (eligible_acquiring (state_at app.channels i) f);
                  })
            | queued x e1 e2 e3 e4 a ↦ absurd cc
            | under_way x e1 e2 e3 e4 a ↦ absurd cc
            | over x e1 e2 e3 e4 a ↦ absurd cc
            | answered x e1 e2 e3 e4 a ↦ absurd cc
          ]
          | inr f ↦ rw (hand_over, f) h
        ]

    dispatch-IsScheduled :
        (conf : BlockInput C F D) (input : List (F × F)) (index : ℕ) (app : Application T F D)
        → IsScheduled app
        → IsScheduled (dispatch fp eng conf input index app)
    unfolding dispatch
    dispatch-IsScheduled conf input index app h =
        if_intro IsScheduled app.acquisition_busy app _ (λ e. h)
          (λ e.
            hand_over-IsScheduled input _ _ e
              (keep_flight app (record app { sweep = _ }) (λ i a. a) refl refl refl refl h))

  module _ ⦃m : Maths D⦄ (sort : List D → List D) where
    answer_keeps :
        (o : Option (Answer D)) (app : Application T F D)
        → IsScheduled app
        → IsScheduled (take_answer fp sort o app).1
    unfolding take_answer
    answer_keeps none app h = h
    answer_keeps (some (ok, sol, solver)) app h =
        keep_flight app (record app { pvt_solver = solver }) (λ i a. a) refl refl refl refl h

    measured_keeps :
        (measured : Bool × Measurements D) (app : Application T F D)
        → IsScheduled app
        → IsScheduled (solve_measured fp sort measured app).1
    unfolding solve_measured
    measured_keeps (false, out) app h =
        keep_flight app (record app { last_pseudorange_samples = [] }) (λ i a. a) refl refl refl
          refl h
    measured_keeps (true, out) app h =
        answer_keeps _ _ (keep_flight app _ (λ i a. a) refl refl refl refl h)

    solution_keeps :
        (app : Application T F D)
        → IsScheduled app
        → IsScheduled (compute_navigation_solution fp sort app).1
    unfolding compute_navigation_solution
    solution_keeps app h =
        measured_keeps
          (assemble fp sort app.channels app.pvt_solver.reference_ecef app.pvt_solver.has_valid_fix)
          app h

    module _ {C : Type 0} (eng : Engine C T F) (conf : BlockInput C F D) where
      -- A block keeps to one acquisition at a time.
      pub process_block-IsScheduled :
          (input : List (F × F)) (index : ℕ) (app : Application T F D)
          → IsScheduled app
          → IsScheduled (process_block fp sort eng conf input index app)
      unfolding process_block navigate fix track_satellites
      process_block-IsScheduled input index app h =
          let received = receive-IsScheduled eng conf app h in
          let a1 = dispatch fp eng conf input index (receive fp eng conf app) in
          let searched = dispatch-IsScheduled eng conf input index _ received in
          let a2 = track_satellites fp eng input a1 in
          let tracked =
            keep_flight a1 a2 (track-Keeps eng input a1.channels) refl refl refl refl searched in
          let a3 = navigate fp sort eng conf a2 in
          let decoded =
            keep_flight a2 a3 (update_channel_navigation-Keeps a2.channels a2.nav_decoder) refl refl
              refl refl tracked in
          if_intro IsScheduled (fix_due conf.fix_output_interval_blocks index) _ a3
            (λ e. solution_keeps a3 decoded) (λ e. decoded)

      module _ (correlate : List (F × F) → Metrics F → Metrics F) where
        Step-IsScheduled :
            (app app' : Application T F D)
            → Step fp sort eng conf correlate app app'
            → IsScheduled app
            → IsScheduled app'
        Step-IsScheduled app _ (block input index) h = process_block-IsScheduled input index app h
        Step-IsScheduled app _ (take e) h = take_job-IsScheduled app e h
        Step-IsScheduled app _ (search j e) h = end_search-IsScheduled app j _ e h
        Step-IsScheduled app _ (throw j metrics e) h = end_search-IsScheduled app j metrics e h
        Step-IsScheduled app _ (tell r e) h = report-IsScheduled app r e h

        -- From a state in which the busy flag is up exactly while one search is queued, under way or
        -- answered, and the channel of that search is acquiring, any interleaving of blocks and
        -- thread, also with searches that throw, leads to such a state: no result is lost and no
        -- second search starts.
        pub Steps-IsScheduled :
            (app app' : Application T F D)
            → Steps fp sort eng conf correlate app app'
            → IsScheduled app
            → IsScheduled app'
        Steps-IsScheduled app _ done h = h
        Steps-IsScheduled app app' (further {mid = mid} steps step) h =
            Step-IsScheduled mid app' step (Steps-IsScheduled app mid steps h)
