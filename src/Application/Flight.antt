-- ===== src/Application/Flight.antt =====
-- One acquisition at a time, in any interleaving of the blocks and the acquisition thread.
use gpsopen_cl.Prelude.{ℕ, ◌≡◌, refl, ◌∙◌, true, false, Option, none, some}
use gpsopen_cl.Prelude.{List, [], ◌∷◌}
use mathlib.Core.Path.{subst}
use gpsopen_cl.BoundedQueue.Fifo
use gpsopen_cl.BoundedQueue.Fifo.{
  Fifo, try_push, try_pop, pop, Reply, asleep, answer, take_first, append,
}
use gpsopen_cl.Channel.Lock.{ChannelState, acquiring, confirming, tracking}
use gpsopen_cl.Channel.State.{Channel}
use gpsopen_cl.Channel.Metrics.{Metrics}
use gpsopen_cl.Application.State.{Application, AcquisitionJob, AcquisitionResult}
use gpsopen_cl.Application.State.{idle, searching, reporting, state_at}
use gpsopen_cl.Application.Block.{is_eligible}
use gpsopen_cl.Application.Worker.{taken, take_job, end_search, report}

pub eligible_acquiring : (o : Option ChannelState) → is_eligible o ≡ true → o ≡ some acquiring
eligible_acquiring none h = absurd cc
eligible_acquiring (some acquiring) h = refl
eligible_acquiring (some confirming) h = absurd cc
eligible_acquiring (some tracking) h = absurd cc

module _ {A : Type 0} (f : Fifo A) (open_f : f.finished ≡ false) where
  pop_empty : f.items ≡ [] → Fifo.call 1 pop f ≡ (asleep, f)
  unfolding Fifo.call take_first
  pop_empty e = rw (Fifo.call, take_first, e, open_f) refl

  pop_one :
      (x : A)
      → f.items ≡ x ∷ []
      → Fifo.call 1 pop f ≡ (answer true (some x), record { items = []; finished = false })
  unfolding Fifo.call take_first
  pop_one x e = rw (Fifo.call, take_first, e, open_f) refl

  pub try_pop_one :
      (x : A)
      → f.items ≡ x ∷ []
      → Fifo.call 4 try_pop f ≡ (answer true (some x), record { items = []; finished = false })
  unfolding Fifo.call take_first
  try_pop_one x e = rw (Fifo.call, take_first, e, open_f) refl

  pub try_pop_empty :
      f.items ≡ []
      → Fifo.call 4 try_pop f ≡ (answer false none, record { items = []; finished = false })
  unfolding Fifo.call take_first
  try_pop_empty e = rw (Fifo.call, take_first, e, open_f) refl

  pub job_push :
      (x : A)
      → f.items ≡ []
      → Fifo.call 1 (try_push x) f ≡ (answer true none, record { items = x ∷ []; finished = false })
  unfolding Fifo.call append
  job_push x e = rw (Fifo.call, append, e, open_f) refl

  result_push :
      (x : A)
      → f.items ≡ []
      → Fifo.call 4 (try_push x) f ≡ (answer true none, record { items = x ∷ []; finished = false })
  unfolding Fifo.call append
  result_push x e = rw (Fifo.call, append, e, open_f) refl

module _ {T F D : Type 0} where
  -- Where the one search is: nowhere while the flag is down, and in one place while it is up. The
  -- channel that is searched is still acquiring.
  pub data Flight (app : Application T F D) : Type 0 where
    landed :
        app.acquisition_busy ≡ false
        → app.jobs.items ≡ []
        → app.searcher ≡ idle
        → app.results.items ≡ []
        → Flight app
    queued :
        (j : AcquisitionJob F)
        → app.acquisition_busy ≡ true
        → app.jobs.items ≡ j ∷ []
        → app.searcher ≡ idle
        → app.results.items ≡ []
        → state_at app.channels j.channel_index ≡ some acquiring
        → Flight app
    under_way :
        (j : AcquisitionJob F)
        → app.acquisition_busy ≡ true
        → app.jobs.items ≡ []
        → app.searcher ≡ searching j
        → app.results.items ≡ []
        → state_at app.channels j.channel_index ≡ some acquiring
        → Flight app
    over :
        (r : AcquisitionResult)
        → app.acquisition_busy ≡ true
        → app.jobs.items ≡ []
        → app.searcher ≡ reporting r
        → app.results.items ≡ []
        → state_at app.channels r.channel_index ≡ some acquiring
        → Flight app
    answered :
        (r : AcquisitionResult)
        → app.acquisition_busy ≡ true
        → app.jobs.items ≡ []
        → app.searcher ≡ idle
        → app.results.items ≡ r ∷ []
        → state_at app.channels r.channel_index ≡ some acquiring
        → Flight app

  pub record IsScheduled (app : Application T F D) : Type 0 where
    pub open_jobs : app.jobs.finished ≡ false
    pub open_results : app.results.finished ≡ false
    pub flight : Flight app

  -- A change of the channels that leaves the acquiring ones acquiring.
  abbrev pub Keeps : List (Channel T F D) → List (Channel T F D) → Type 0
  Keeps cs cs' = (i : ℕ) → state_at cs i ≡ some acquiring → state_at cs' i ≡ some acquiring

  pub keep_flight :
      (app app' : Application T F D)
      → Keeps app.channels app'.channels
      → app'.acquisition_busy ≡ app.acquisition_busy
      → app'.jobs ≡ app.jobs
      → app'.searcher ≡ app.searcher
      → app'.results ≡ app.results
      → IsScheduled app
      → IsScheduled app'
  keep_flight app app' keeps b j s r h = record {
    open_jobs = rw j h.open_jobs;
    open_results = rw r h.open_results;
    flight = elim h.flight [
      | landed e1 e2 e3 e4 ↦ landed (b ∙ e1) (rw j e2) (s ∙ e3) (rw r e4)
      | queued x e1 e2 e3 e4 a ↦
          queued x (b ∙ e1) (rw j e2) (s ∙ e3) (rw r e4) (keeps x.channel_index a)
      | under_way x e1 e2 e3 e4 a ↦
          under_way x (b ∙ e1) (rw j e2) (s ∙ e3) (rw r e4) (keeps x.channel_index a)
      | over x e1 e2 e3 e4 a ↦
          over x (b ∙ e1) (rw j e2) (s ∙ e3) (rw r e4) (keeps x.channel_index a)
      | answered x e1 e2 e3 e4 a ↦
          answered x (b ∙ e1) (rw j e2) (s ∙ e3) (rw r e4) (keeps x.channel_index a)
    ];
  }

  -- The thread takes the job that is there.
  pub take_job-IsScheduled :
      (app : Application T F D) → app.searcher ≡ idle → IsScheduled app → IsScheduled (take_job app)
  unfolding take_job taken
  take_job-IsScheduled app e h = elim h.flight [
    | landed e1 e2 e3 e4 ↦ rw (take_job, pop_empty app.jobs h.open_jobs e2, taken) h
    | queued x e1 e2 e3 e4 a ↦
        rw (take_job, pop_one app.jobs h.open_jobs x e2, taken)
          (record {
            open_jobs = refl;
            open_results = h.open_results;
            flight = under_way x e1 refl refl e4 a;
          })
    | under_way x e1 e2 e3 e4 a ↦ absurd cc
    | over x e1 e2 e3 e4 a ↦ absurd cc
    | answered x e1 e2 e3 e4 a ↦ rw (take_job, pop_empty app.jobs h.open_jobs e2, taken) h
  ]

  pub end_search-IsScheduled :
      (app : Application T F D) (j : AcquisitionJob F) (metrics : List (Metrics F))
      → app.searcher ≡ searching j
      → IsScheduled app
      → IsScheduled (end_search j metrics app)
  unfolding end_search
  end_search-IsScheduled app j metrics e h = record {
    open_jobs = h.open_jobs;
    open_results = h.open_results;
    flight = elim h.flight [
      | landed e1 e2 e3 e4 ↦ absurd cc
      | queued x e1 e2 e3 e4 a ↦ absurd cc
      | under_way x e1 e2 e3 e4 a ↦
          let same : x ≡ j = cc in
          over (record { channel_index = j.channel_index }) e1 e2 refl e4
            (subst (λ y. state_at app.channels y.channel_index ≡ some acquiring) same a)
      | over x e1 e2 e3 e4 a ↦ absurd cc
      | answered x e1 e2 e3 e4 a ↦ absurd cc
    ];
  }

  pub report-IsScheduled :
      (app : Application T F D) (r : AcquisitionResult)
      → app.searcher ≡ reporting r
      → IsScheduled app
      → IsScheduled (report r app)
  unfolding report
  report-IsScheduled app r e h = elim h.flight [
    | landed e1 e2 e3 e4 ↦ absurd cc
    | queued x e1 e2 e3 e4 a ↦ absurd cc
    | under_way x e1 e2 e3 e4 a ↦ absurd cc
    | over x e1 e2 e3 e4 a ↦
        let same : x ≡ r = cc in
        rw (report, result_push app.results h.open_results r e4)
          (record {
            open_jobs = h.open_jobs;
            open_results = refl;
            flight =
                answered r e1 e2 refl refl
                  (subst (λ y. state_at app.channels y.channel_index ≡ some acquiring) same a);
          })
    | answered x e1 e2 e3 e4 a ↦ absurd cc
  ]
