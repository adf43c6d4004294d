-- ===== src/Dispatcher/Loop.antt =====
-- demo/dependent_workload.cpp, `main`: one round of the loop, and the loop.
use scx_slam_fresh.Base.{
  ℕ, zero, suc, ◌+◌, ◌-◌, ◌*◌, ◌/◌, Bool, true, false, not, ◌&&◌, ◌||◌, List, [], ◌∷◌, ◌++◌, Option,
  none, some, ◌==◌, if◌then◌else◌, ltb, leb, length, empty, add64, Result, ok, ◌>>=◌,
}
use scx_slam_fresh.Graph.{
  Stream, imu, camera, Measurement, Batch, Snapshot, Control, Graph, pending, control, select,
  complete,
}
use scx_slam_fresh.Graph
use scx_slam_fresh.Worker.{
  Worker, WorkerError, Job, JobResult, Completion, does_nothing, offers_measurement,
  completes_batch, reports_control, dispatch, collect, new_worker,
}
use scx_slam_fresh.Worker
use scx_slam_fresh.Dispatcher.{
  ms, Source, ThreadMove, thread_steps, Role, imu_processing, camera_processing, estimator,
  control_loop, mapping, Dispatcher, worker_of, set_worker, LoopError, from_worker, from_graph,
  with_graph, any_camera, offer_mapping, ages, count_outcome, produce, control_job, idle,
  skip_control, offer_batch,
}

-- `finish` is `end`; `burst` is the scenario `estimator-burst`.
pub record Window : Type 0 where
  pub begin : ℕ
  pub finish : ℕ
  pub burst : Bool

-- What happens beside the main thread in one round, for each of the workers and each hog.
pub record Round : Type 0 where
  pub before_collect : Role → List ThreadMove
  pub before_dispatch : Role → List ThreadMove
  pub publish_fails : Role → Bool
  pub hog_before_collect : ℕ → List ThreadMove
  pub hog_before_dispatch : ℕ → List ThreadMove
  pub hog_publish_fails : ℕ → Bool

abbrev pub completion : Option JobResult → Completion
completion none = does_nothing
completion (some r) = r.job.complete

unfoldable pub hog_job : ℕ → Worker → Job
hog_job t w = record {
  id = add64 w.offered 1;
  release = t;
  deadline = add64 t (100 * ms);
  work = ms;
  complete = does_nothing;
  assigned = 0;
  budget = 0;
  outcome = none;
}

unfoldable pub offer_hogs : ℕ → List Worker → List Worker
offer_hogs t [] = []
offer_hogs t (w ∷ ws) = (if idle w then (Worker.offer (hog_job t w) w).1 else w) ∷ offer_hogs t ws

-- A hog's job does nothing when it is complete.
unfoldable pub collect_hogs : Round → ℕ → List Worker → Result LoopError (List Worker)
collect_hogs r i [] = ok []
collect_hogs r i (w ∷ ws) = do
  w' ← from_worker (collect (thread_steps (r.hog_before_collect i) w))
  ws' ← collect_hogs r (suc i) ws
  ok (w' ∷ ws')

abbrev pub any_pending : List Worker → Bool
any_pending [] = false
any_pending (w ∷ ws) = w.busy || (not (empty w.queue) || any_pending ws)

abbrev pub workers : Dispatcher → List Worker
workers d =
    d.imu_worker ∷ d.camera_worker ∷ d.estimator_worker ∷ d.control_worker ∷ d.mapping_worker
    ∷ d.hogs

module _ (clock : ℕ → ℕ) where
  -- `done->job.complete(done->end)`.
  unfoldable pub run_completion : Completion → Dispatcher → Result LoopError Dispatcher
  run_completion does_nothing d = ok d
  run_completion (offers_measurement m) d = do
    (accepted, g) ← from_graph (Graph.offer m (clock d.reads) d.graph)
    ok (with_graph g d)
  run_completion (completes_batch b) d = do
    (s, g) ← from_graph (complete b.id (clock d.reads) d.graph)
    let d' = with_graph g d
    if any_camera b.inputs then offer_mapping s s.last_camera d' else ok d'
  run_completion (reports_control c) d =
      let counted = count_outcome c.outcome d in
      ok (record counted { control_ages = counted.control_ages ++ ages c.snapshot c.release })

  unfoldable pub collect_role : Round → Role → Dispatcher → Result LoopError Dispatcher
  collect_role r role d =
      let w = thread_steps (r.before_collect role) (worker_of role d) in
      do w' ← from_worker (collect w); run_completion (completion w.result) (set_worker role w' d)

  unfoldable pub collect_all : Round → Dispatcher → Result LoopError Dispatcher
  collect_all r d = do
    d1 ← collect_role r imu_processing d
    d2 ← collect_role r camera_processing d1
    d3 ← collect_role r estimator d2
    d4 ← collect_role r control_loop d3
    d5 ← collect_role r mapping d4
    hogs ← collect_hogs r 0 d5.hogs
    ok (record d5 { hogs = hogs })

  -- The body of the loop over `next_control`.
  unfoldable pub control_one : Dispatcher → Result LoopError Dispatcher
  control_one d =
      let release = d.next_control in
      let id = add64 d.control_id 1 in
      let d1 = record d { control_id = id; next_control = add64 d.next_control (10 * ms) } in
      if not (idle d.control_worker) then ok (skip_control d1) else do
        (c, g) ← from_graph (control (clock d1.reads) (id / 100) (20 * ms) d1.graph)
        let d2 = with_graph g d1
        ok (record d2 {
          control_worker = (Worker.offer (control_job id release c) d2.control_worker).1;
        })

  -- The loop, on fuel.
  unfoldable pub control_ticks : ℕ → ℕ → ℕ → Dispatcher → Result LoopError Dispatcher
  control_ticks zero finish t d = ok d
  control_ticks (suc fuel) finish t d =
      let rest = control_one d >>= control_ticks fuel finish t in
      if ltb d.next_control finish && leb d.next_control t then rest else ok d

  unfoldable pub start_estimator : Bool → Dispatcher → Result LoopError Dispatcher
  start_estimator burst d =
      if idle d.estimator_worker
      then (do
        (b, g) ← from_graph (select (clock d.reads) d.graph)
        offer_batch burst b (with_graph g d))
      else ok d

  -- One reading of the clock is counted, whether or not a job is handed over.
  unfoldable pub dispatch_role : Round → Role → Dispatcher → Result LoopError Dispatcher
  dispatch_role r role d = do
    w ← from_worker (
        dispatch (clock d.reads) (r.publish_fails role)
          (thread_steps (r.before_dispatch role) (worker_of role d)))
    ok (set_worker role w (record d { reads = suc d.reads }))

  unfoldable pub dispatch_hogs : Round → ℕ → ℕ → List Worker → Result LoopError (List Worker)
  dispatch_hogs r reads i [] = ok []
  dispatch_hogs r reads i (w ∷ ws) = do
    w' ←
        from_worker (
          dispatch (clock reads) (r.hog_publish_fails i) (thread_steps (r.hog_before_dispatch i) w))
    ws' ← dispatch_hogs r (suc reads) (suc i) ws
    ok (w' ∷ ws')

  unfoldable pub dispatch_all : Round → Dispatcher → Result LoopError Dispatcher
  dispatch_all r d = do
    d1 ← dispatch_role r imu_processing d
    d2 ← dispatch_role r camera_processing d1
    d3 ← dispatch_role r estimator d2
    d4 ← dispatch_role r control_loop d3
    d5 ← dispatch_role r mapping d4
    hogs ← dispatch_hogs r d5.reads 0 d5.hogs
    ok (record d5 { hogs = hogs; reads = d5.reads + length d5.hogs })

  -- The loops over the sources and the control ticks make at most one round for each nanosecond.
  unfoldable pub release_work : Window → ℕ → Dispatcher → Result LoopError Dispatcher
  release_work win t d =
      let d1 =
        if leb win.begin t && ltb t win.finish
        then record d { hogs = offer_hogs t d.hogs }
        else d in
      let d2 = produce (suc t - d1.imu_source.next) imu win.finish t d1 in
      let d3 = produce (suc t - d2.camera_source.next) camera win.finish t d2 in
      do d4 ← control_ticks (suc t - d3.next_control) win.finish t d3; start_estimator win.burst d4

  -- One round; `true` is the `break`.
  unfoldable pub round : Window → Round → Dispatcher → Result LoopError (Bool × Dispatcher)
  round win r d = do
    d1 ← collect_all r d
    let t = clock d1.reads
    d2 ← release_work win t (record d1 { reads = suc d1.reads })
    d3 ← dispatch_all r d2
    let drained =
        not (any_pending (workers d3))
        && (pending imu d3.graph == 0 && pending camera d3.graph == 0)
    ok (leb win.finish t && drained, d3)

  -- The loop, for as many rounds as the list has, or to the `break`.
  unfoldable pub loop : Window → List Round → Dispatcher → Result LoopError (Bool × Dispatcher)
  loop win [] d = ok (false, d)
  loop win (r ∷ rounds) d = do
    (done, d') ← round win r d
    let more = loop win rounds d'
    if done then ok (true, d') else more

abbrev pub new_hogs : ℕ → Bool → List Worker
new_hogs zero hints = []
new_hogs (suc n) hints = new_worker hints ∷ new_hogs n hints

-- The variables of `main` before the loop; `hints` is whether the map was opened.
unfoldable pub start : Bool → ℕ → Window → Graph → Dispatcher
start hints hog_count win g =
    let new_source : Source = record { next = win.begin; produced = 0 } in
    record {
      graph = g;
      imu_worker = new_worker hints;
      camera_worker = new_worker hints;
      estimator_worker = new_worker hints;
      control_worker = new_worker hints;
      mapping_worker = new_worker hints;
      hogs = new_hogs hog_count hints;
      imu_source = new_source;
      camera_source = new_source;
      next_control = win.begin;
      control_id = 0;
      usable = 0;
      stale = 0;
      missing = 0;
      control_ages = [];
      burst_job = 0;
      reads = 0;
    }
