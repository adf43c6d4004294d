-- ===== src/Dispatcher/Jobs.antt =====
-- demo/dependent_workload.cpp, `main`: the jobs that the loop makes, with their constants.
use scx_slam_fresh.Base.{
  ℕ, ◌*◌, Bool, false, ◌&&◌, ◌||◌, List, [], ◌∷◌, none, some, ◌==◌, if◌then◌else◌, add64,
}
use scx_slam_fresh.Graph.{Stream, imu, camera, Measurement, Batch, Control, same_stream}
use scx_slam_fresh.Worker.{Job, offers_measurement, completes_batch, reports_control}

abbrev pub ms : ℕ
ms = 1000000

-- The constants of the two sources.
abbrev pub period : Stream → ℕ
period imu = 5 * ms
period camera = 50 * ms

abbrev pub relative_deadline : Stream → ℕ
relative_deadline imu = 5 * ms
relative_deadline camera = 33 * ms

abbrev pub processing_work : Stream → ℕ
processing_work imu = 150000
processing_work camera = 4 * ms

abbrev pub measurement_job : Measurement → Job
measurement_job m = record {
  id = m.sequence;
  release = m.source_time;
  deadline = add64 m.source_time (relative_deadline m.stream);
  work = processing_work m.stream;
  complete = offers_measurement m;
  assigned = 0;
  budget = 0;
  outcome = none;
}

abbrev pub control_job : ℕ → ℕ → Control → Job
control_job id release c = record {
  id = id;
  release = release;
  deadline = add64 release (10 * ms);
  work = 200000;
  complete = reports_control c;
  assigned = 0;
  budget = 0;
  outcome = some c.outcome;
}

abbrev pub cost : List Measurement → ℕ → ℕ
cost [] total = total
cost (m ∷ inputs) total =
    cost inputs (add64 total (if same_stream m.stream imu then 100000 else 2 * ms))

abbrev pub has_burst : List Measurement → Bool
has_burst [] = false
has_burst (m ∷ inputs) = same_stream m.stream camera && m.sequence == 11 || has_burst inputs

abbrev pub batch_job : Bool → Batch → ℕ → Job
batch_job burst b release =
    let base = cost b.inputs 300000 in
    record {
      id = b.id;
      release = release;
      deadline = add64 release (33 * ms);
      work = if burst && has_burst b.inputs then add64 base (80 * ms) else base;
      complete = completes_batch b;
      assigned = 0;
      budget = if burst then 4 * ms else 0;
      outcome = none;
    }
