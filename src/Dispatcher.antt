-- ===== src/Dispatcher.antt =====
-- demo/dependent_workload.cpp, `main`: the loop that drives a `Graph` with five workers and the hogs.
--
-- The clock is a function from the number of readings made so far; a `Round` says what the threads of
-- the workers do before the main thread's next critical section with them, and whether a publication
-- fails. An exception ends the loop.
mod Jobs
pub mod Loop
pub mod Safety
pub mod Accounts
mod Run
mod Tests
pub use Jobs.*
use scx_slam_fresh.Base.{
  ℕ, zero, suc, ◌+◌, ◌-◌, ◌*◌, ◌/◌, Bool, true, false, not, ◌&&◌, ◌||◌, List, [], ◌∷◌, ◌++◌, Option,
  none, some, has_value, ◌==◌, if◌then◌else◌, ltb, leb, length, empty, add64, sub64, Result, ok,
  err, ◌>>=◌,
}
use scx_slam_fresh.Graph.{
  Stream, imu, camera, Measurement, Batch, Snapshot, Outcome, Control, Graph, GraphError,
  same_stream, pending, control, select, complete,
}
use scx_slam_fresh.Graph
use scx_slam_fresh.Worker.{
  Worker, WorkerError, Job, JobResult, Completion, does_nothing, offers_measurement,
  completes_batch, reports_control, dispatch, collect, thread_wakes, thread_ends, thread_fails,
  new_worker,
}
use scx_slam_fresh.Worker

pub data ThreadMove : Type 0 where
  wakes : ThreadMove
  ends : ℕ → ℕ → ℕ → ThreadMove
  fails : ThreadMove

unfoldable pub thread_step : ThreadMove → Worker → Worker
thread_step wakes w = thread_wakes w
thread_step (ends start end_ns used) w = thread_ends start end_ns used w
thread_step fails w = thread_fails w

unfoldable pub thread_steps : List ThreadMove → Worker → Worker
thread_steps [] w = w
thread_steps (m ∷ moves) w = thread_steps moves (thread_step m w)

-- The first five of `workers`, in its order.
pub data Role : Type 0 where
  imu_processing camera_processing estimator control_loop mapping : Role

-- `next_imu` with `imu_id`, and `next_camera` with `camera_id`.
pub record Source : Type 0 where
  pub next : ℕ
  pub produced : ℕ

-- The variables of `main`, the graph and the workers; `reads` counts the readings of the clock.
pub record Dispatcher : Type 0 where
  pub graph : Graph
  pub imu_worker : Worker
  pub camera_worker : Worker
  pub estimator_worker : Worker
  pub control_worker : Worker
  pub mapping_worker : Worker
  pub hogs : List Worker
  pub imu_source : Source
  pub camera_source : Source
  pub next_control : ℕ
  pub control_id : ℕ
  pub usable : ℕ
  pub stale : ℕ
  pub missing : ℕ
  pub control_ages : List ℕ
  pub burst_job : ℕ
  pub reads : ℕ

abbrev pub worker_of : Role → Dispatcher → Worker
worker_of imu_processing d = d.imu_worker
worker_of camera_processing d = d.camera_worker
worker_of estimator d = d.estimator_worker
worker_of control_loop d = d.control_worker
worker_of mapping d = d.mapping_worker

abbrev pub set_worker : Role → Worker → Dispatcher → Dispatcher
set_worker imu_processing w d = record d { imu_worker = w }
set_worker camera_processing w d = record d { camera_worker = w }
set_worker estimator w d = record d { estimator_worker = w }
set_worker control_loop w d = record d { control_worker = w }
set_worker mapping w d = record d { mapping_worker = w }

abbrev pub role_of : Stream → Role
role_of imu = imu_processing
role_of camera = camera_processing

abbrev pub source_of : Stream → Dispatcher → Source
source_of imu d = d.imu_source
source_of camera d = d.camera_source

abbrev pub set_source : Stream → Source → Dispatcher → Dispatcher
set_source imu s d = record d { imu_source = s }
set_source camera s d = record d { camera_source = s }

-- The last two are undefined in C++: `front` of an empty vector, and an empty optional.
pub data LoopError : Type 0 where
  worker_error : WorkerError → LoopError
  graph_error : GraphError → LoopError
  empty_batch no_camera : LoopError

abbrev pub from_worker : {A : Type 0} → Result WorkerError A → Result LoopError A
from_worker (ok a) = ok a
from_worker (err e) = err (worker_error e)

abbrev pub from_graph : {A : Type 0} → Result GraphError A → Result LoopError A
from_graph (ok a) = ok a
from_graph (err e) = err (graph_error e)

-- A graph call's new graph, after one reading of the clock.
abbrev pub with_graph : Graph → Dispatcher → Dispatcher
with_graph g d = record d { graph = g; reads = suc d.reads }

abbrev pub any_camera : List Measurement → Bool
any_camera [] = false
any_camera (m ∷ ms) = same_stream m.stream camera || any_camera ms

unfoldable pub offer_mapping :
    Snapshot → Option Measurement → Dispatcher → Result LoopError Dispatcher
offer_mapping s none d = err no_camera
offer_mapping s (some m) d =
    let j : Job = record {
      id = s.batch_id;
      release = m.source_time;
      deadline = add64 m.source_time (100 * ms);
      work = 2 * ms;
      complete = does_nothing;
      assigned = 0;
      budget = 0;
      outcome = none;
    } in
    ok (record d { mapping_worker = (Worker.offer j d.mapping_worker).1 })

abbrev pub ages : Option Snapshot → ℕ → List ℕ
ages none release = []
ages (some s) release = elim s.last_imu [ none ↦ [] | some m ↦ sub64 release m.source_time ∷ [] ]

unfoldable pub count_outcome : Outcome → Dispatcher → Dispatcher
count_outcome Outcome.usable d = record d { usable = add64 d.usable 1 }
count_outcome Outcome.stale d = record d { stale = add64 d.stale 1 }
count_outcome Outcome.missing d = record d { missing = add64 d.missing 1 }

-- The bodies of the loops over `next_imu` and `next_camera`.
unfoldable pub produce_one : Stream → Dispatcher → Dispatcher
produce_one s d =
    let source = source_of s d in
    let m : Measurement = record {
      stream = s;
      sequence = add64 source.produced 1;
      source_time = source.next;
    } in
    set_source s (record { next = add64 source.next (period s); produced = m.sequence })
      (set_worker (role_of s) (Worker.offer (measurement_job m) (worker_of (role_of s) d)).1 d)

-- The loops, on fuel.
unfoldable pub produce : ℕ → Stream → ℕ → ℕ → Dispatcher → Dispatcher
produce zero s finish t d = d
produce (suc fuel) s finish t d =
    let rest = produce fuel s finish t (produce_one s d) in
    if ltb (source_of s d).next finish && leb (source_of s d).next t then rest else d

abbrev pub idle : Worker → Bool
idle w = not w.busy && empty w.queue

-- A control tick that the worker is too busy for.
abbrev pub skip_control : Dispatcher → Dispatcher
skip_control d = record d {
  control_worker = record d.control_worker {
    offered = add64 d.control_worker.offered 1;
    dropped = add64 d.control_worker.dropped 1;
  };
}

-- What is done with the batch that `select` gave; `burst` is the scenario.
unfoldable pub offer_batch : Bool → Option Batch → Dispatcher → Result LoopError Dispatcher
offer_batch burst none d = ok d
offer_batch burst (some b) d = elim b.inputs [
  | [] ↦ err empty_batch
  | m ∷ _ ↦ ok (record d {
    estimator_worker = (Worker.offer (batch_job burst b m.source_time) d.estimator_worker).1;
    burst_job = if burst && has_burst b.inputs then b.id else d.burst_job;
  })
]
