-- ===== src/Application/Worker.antt =====
-- The acquisition thread, `Application::acquisitionWorkerLoop`, and its interleavings with the blocks.
-- `correlate` is `Acquisition::correlate` on the metrics of a channel; it may also throw.
use gpsopen_cl.Prelude.{ℕ, ◌≡◌, true, false, Option, none, some, List, set, get_elem?}
use gpsopen_cl.Float.{Floats}
use gpsopen_cl.Maths.{Maths}
use gpsopen_cl.BoundedQueue.Fifo
use gpsopen_cl.BoundedQueue.Fifo.{Fifo, try_push, pop, Reply, asleep, answer}
use gpsopen_cl.Channel.State.{Engine}
use gpsopen_cl.Channel.Metrics.{Metrics}
use gpsopen_cl.Application.State.{Application, AcquisitionJob, AcquisitionResult, BlockInput}
use gpsopen_cl.Application.State.{idle, searching, reporting}
use gpsopen_cl.Application.Pipeline.{process_block}

module _ {T F D : Type 0} where
  unfoldable pub taken :
      Reply (AcquisitionJob F) × Fifo (AcquisitionJob F) → Application T F D → Application T F D
  taken (answer true (some j), jobs) app = record app { jobs = jobs; searcher = searching j }
  taken (answer true none, jobs) app = app
  taken (answer false o, jobs) app = app
  taken (asleep, jobs) app = app

  -- `m_acquisitionJobQueue.pop(job)`.
  unfoldable pub take_job : Application T F D → Application T F D
  take_job app = taken (Fifo.call 1 pop app.jobs) app

  -- The thread goes on to report, with these metrics.
  unfoldable pub end_search :
      AcquisitionJob F → List (Metrics F) → Application T F D → Application T F D
  end_search j metrics app = record app {
    metrics = metrics;
    searcher = reporting (record { channel_index = j.channel_index });
  }

  -- `m_acquisitionResultQueue.tryPush(...)`.
  unfoldable pub report : AcquisitionResult → Application T F D → Application T F D
  report r app = record app { results = (Fifo.call 4 (try_push r) app.results).1; searcher = idle }

unfoldable pub searched :
    {F : Type 0}
    → (List (F × F) → Metrics F → Metrics F)
    → AcquisitionJob F
    → Option (Metrics F)
    → List (Metrics F)
    → List (Metrics F)
searched correlate j none metrics = metrics
searched correlate j (some m) metrics = set metrics j.channel_index (correlate j.input m)

module _ {C T F D : Type 0} ⦃m : Maths D⦄ (fp : Floats F D) (sort : List D → List D)
    (eng : Engine C T F) (conf : BlockInput C F D)
    (correlate : List (F × F) → Metrics F → Metrics F) where
  -- A search that throws leaves any metrics.
  pub data Step (app : Application T F D) : Application T F D → Type 0 where
    block :
        (input : List (F × F)) (index : ℕ)
        → Step app (process_block fp sort eng conf input index app)
    take : app.searcher ≡ idle → Step app (take_job app)
    search :
        (j : AcquisitionJob F)
        → app.searcher ≡ searching j
        → Step app (
            end_search j
              (searched correlate j (get_elem? app.metrics j.channel_index) app.metrics)
              app)
    throw :
        (j : AcquisitionJob F) (metrics : List (Metrics F))
        → app.searcher ≡ searching j
        → Step app (end_search j metrics app)
    tell : (r : AcquisitionResult) → app.searcher ≡ reporting r → Step app (report r app)

  pub data Steps (app : Application T F D) : Application T F D → Type 0 where
    done : Steps app app
    further : {mid app' : Application T F D} → Steps app mid → Step mid app' → Steps app app'
