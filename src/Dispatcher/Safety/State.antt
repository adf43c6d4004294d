-- ===== src/Dispatcher/Safety/State.antt =====
-- demo/dependent_workload.cpp, `main`: what the loop keeps true of its workers and its graph.
use scx_slam_fresh.Base.{
  ℕ, ◌+◌, ◌*◌, ◌≤◌, ◌<◌, ◌≡◌, false, List, [], ◌∷◌, Option, none, some, value_or, length, All,
  Result, ok, err, ◌>>=◌,
}
use scx_slam_fresh.Graph.{Stream, Measurement, Batch, imu, camera}
use scx_slam_fresh.Graph.Invariant.{Inv}
use scx_slam_fresh.Graph.Returns.{Note, noted}
use scx_slam_fresh.Worker.{
  Worker, Job, offers_measurement, completes_batch, reports_control, does_nothing, Completion,
}
use scx_slam_fresh.Worker.Order.{outstanding, OneJob}
use scx_slam_fresh.Worker.Invariant.State.{flag}
use scx_slam_fresh.Dispatcher.{
  period, Source, Dispatcher, LoopError, worker_error, graph_error, empty_batch, no_camera,
}

-- A call that may blame a worker, but not the graph, and that reads nothing that is not there.
abbrev pub Fine : {A : Type 0} → (A → Type 0) → Result LoopError A → Type 0
Fine P (ok a) = P a
Fine P (err (worker_error e)) = Unit
Fine P (err (graph_error e)) = ⊥
Fine P (err empty_batch) = ⊥
Fine P (err no_camera) = ⊥

pub Fine-bind :
    {A B : Type 0} (P : A → Type 0) (Q : B → Type 0) (m : Result LoopError A)
    (k : A → Result LoopError B)
    → Fine P m
    → ((a : A) → P a → Fine Q (k a))
    → Fine Q (m >>= k)
Fine-bind P Q (ok a) k h step = step a h
Fine-bind P Q (err (worker_error e)) k h step = tt
Fine-bind P Q (err (graph_error e)) k h step = absurd h
Fine-bind P Q (err empty_batch) k h step = absurd h
Fine-bind P Q (err no_camera) k h step = absurd h

-- Jobs that offer measurements of one stream, numbered upwards between `low` and `high`, all from `t`
-- at the latest.
abbrev pub Feed : Stream → ℕ → ℕ → ℕ → List Job → Type 0
Feed s low high t [] = low ≤ high
Feed s low high t (j ∷ js) =
    (m : Measurement) × (j.complete ≡ offers_measurement m)
    × (m.stream ≡ s)
    × (low < m.sequence)
    × (m.source_time ≤ t)
    × Feed s m.sequence high t js

-- The jobs in a worker's queue and in its hands.
abbrev pub load : Worker → ℕ
load w = flag w.busy + length w.queue

-- The accounts of one stream: its source, its worker, and what the graph's lane has noted; `begin`
-- is the source's first time.
pub record Feeding (begin : ℕ) (s : Stream) (w : Worker) (source : Source) (note : Note) (t : ℕ)
    : Type 0 where
  pub one_job : OneJob w
  pub jobs : w.error ≡ false → Feed s (value_or note.0 0) source.produced t (outstanding w)
  pub counted : source.produced ≤ source.next
  pub offered : w.offered ≡ source.produced
  pub settled : source.produced ≡ w.dropped + w.completed + load w
  pub handed : note.1 ≡ w.completed
  pub paced : source.next ≡ begin + source.produced * period s

-- A job of the estimator completes the running batch.
abbrev pub Completes : Option Batch → Job → Type 0
Completes running j = (b : Batch) × (j.complete ≡ completes_batch b) × (running ≡ some b)

pub record Estimating (w : Worker) (running : Option Batch) : Type 0 where
  pub one_job : OneJob w
  pub few : load w ≤ 1
  pub idle : load w ≡ 0 → running ≡ none
  pub jobs : w.error ≡ false → All (Completes running) (outstanding w)

-- A completion that does not call the graph.
abbrev pub IsQuiet : Completion → Type 0
IsQuiet does_nothing = Unit
IsQuiet (offers_measurement m) = ⊥
IsQuiet (completes_batch b) = ⊥
IsQuiet (reports_control c) = Unit

pub record Quiet (w : Worker) : Type 0 where
  pub one_job : OneJob w
  pub jobs : w.error ≡ false → All (λ j. IsQuiet j.complete) (outstanding w)

-- The sources' next times are from `floor` on, and less than a period after the end of the window.
pub record Safe (clock : ℕ → ℕ) (begin floor finish : ℕ) (d : Dispatcher) : Type 0 where
  pub time : d.graph.clock_time ≤ clock d.reads
  pub imu_ok : Feeding begin imu d.imu_worker d.imu_source (noted d.graph.lane_imu) (clock d.reads)
  pub camera_ok :
      Feeding begin camera d.camera_worker d.camera_source
        (noted d.graph.lane_camera)
        (clock d.reads)
  pub imu_far : floor ≤ d.imu_source.next
  pub camera_far : floor ≤ d.camera_source.next
  pub imu_near : d.imu_source.next < finish + period imu
  pub camera_near : d.camera_source.next < finish + period camera
  pub estimator_ok : Estimating d.estimator_worker d.graph.running
  pub control_ok : Quiet d.control_worker
  pub mapping_ok : Quiet d.mapping_worker
  pub graph_ok : Inv d.graph
