-- ===== src/Dispatcher/Safety/Collect.antt =====
-- demo/dependent_workload.cpp, `main`: `collect` of each worker, with what its job does when complete.
use scx_slam_fresh.Base.{
  ℕ, suc, ◌+◌, ◌*◌, ◌^◌, ◌<◌, ◌≤◌, refl, List, [], ◌∷◌, Option, none, some, Result, ok, err, arith,
  OnOk, ◌>>=◌,
}
use scx_slam_fresh.Graph.{imu, camera}
use scx_slam_fresh.Worker.{Worker, WorkerError, JobResult, does_nothing, collect}
use scx_slam_fresh.Dispatcher.{
  ms, Dispatcher, Role, imu_processing, camera_processing, estimator, control_loop, mapping,
  LoopError, from_worker, thread_steps,
}
use scx_slam_fresh.Dispatcher.Loop.{
  Round, completion, run_completion, collect_role, collect_hogs, collect_all,
}
use scx_slam_fresh.Worker.Order.{OneJob}
use scx_slam_fresh.Dispatcher.Safety.State.{Fine, Fine-bind, Quiet, Safe}
use scx_slam_fresh.Dispatcher.Safety.Workers.{
  Collected, collect-Collected, thread_steps-Later, Feeding-Later, Estimating-Later, Quiet-Later,
}
use scx_slam_fresh.Dispatcher.Safety.Jobs.{Feed-next}
use scx_slam_fresh.Dispatcher.Safety.Batches.{Estimating-next, NextQuiet, Quiet-next}
use scx_slam_fresh.Dispatcher.Safety.Parts.{from_worker-Fine, set_control, set_mapping, set_hogs}
use scx_slam_fresh.Dispatcher.Safety.Completions.{imu_next, camera_next, estimator_next, quiet_next}

-- The thread's moves, then `collect` behind the check for an error.
collected :
    {B : Type 0} (Q : B → Type 0) (w : Worker) (k : Worker → Result LoopError B)
    → OneJob w
    → ((w' : Worker) → Collected w w' → Fine Q (k w'))
    → Fine Q (from_worker (collect w) >>= k)
collected Q w k i next =
    Fine-bind (Collected w) Q (from_worker (collect w)) k
      (from_worker-Fine (Collected w) (collect w) (collect-Collected w i)) next

collect_hogs-Fine :
    (r : Round) (i : ℕ) (ws : List Worker) → Fine (λ _. Unit {0}) (collect_hogs r i ws)
unfolding collect_hogs
collect_hogs-Fine r i [] = tt
collect_hogs-Fine r i (w ∷ ws) =
    Fine-bind (λ _. Unit) (λ _. Unit)
      (from_worker (collect (thread_steps (r.hog_before_collect i) w))) _
      (from_worker-Fine (λ _. Unit) _ (always _))
      (λ w' _.
        Fine-bind (λ _. Unit) (λ _. Unit) (collect_hogs r (suc i) ws) _
          (collect_hogs-Fine r (suc i) ws) (λ _ _. tt))
  where
    always : (m : Result WorkerError Worker) → OnOk (λ _. Unit {0}) m
    always (ok a) = tt
    always (err e) = tt

module _ (clock : ℕ → ℕ) (later : (n : ℕ) → clock n ≤ clock (suc n)) (begin floor finish : ℕ)
    (small : finish + 50 * ms < 2 ^ 64) where
  after_next :
      (w : Worker) (o : Option JobResult) (d : Dispatcher)
      → NextQuiet w o
      → (Quiet w → Safe clock begin floor finish d)
      → Fine (Safe clock begin floor finish) (run_completion clock (completion o) d)
  after_next w none d q v = quiet_next clock later begin floor finish does_nothing d tt (v q)
  after_next w (some r) d (h, q) v =
      quiet_next clock later begin floor finish r.job.complete d h (v q)

  collect_role-Safe :
      (r : Round) (role : Role) (d : Dispatcher)
      → Safe clock begin floor finish d
      → Fine (Safe clock begin floor finish) (collect_role clock r role d)
  unfolding collect_role
  collect_role-Safe r imu_processing d v =
      let l = thread_steps-Later (r.before_collect imu_processing) d.imu_worker v.imu_ok.one_job in
      let f = Feeding-Later _ _ l v.imu_ok in
      collected (Safe clock begin floor finish) _ _ l.one_job (λ w' c.
        imu_next clock later begin floor finish d w' _ v
          (Feed-next begin imu _ _ _ _ w' _ (omega (arith, v.imu_near)) c refl f))
  collect_role-Safe r camera_processing d v =
      let l =
        thread_steps-Later (r.before_collect camera_processing) d.camera_worker
          v.camera_ok.one_job in
      let f = Feeding-Later _ _ l v.camera_ok in
      collected (Safe clock begin floor finish) _ _ l.one_job (λ w' c.
        camera_next clock later begin floor finish d w' _ v
          (Feed-next begin camera _ _ _ _ w' _ (omega (arith, v.camera_near)) c refl f))
  collect_role-Safe r estimator d v =
      let l =
        thread_steps-Later (r.before_collect estimator) d.estimator_worker v.estimator_ok.one_job in
      let f = Estimating-Later _ _ l v.estimator_ok in
      collected (Safe clock begin floor finish) _ _ l.one_job (λ w' c.
        estimator_next clock later begin floor finish d w' _ v (Estimating-next _ _ w' _ c refl f))
  collect_role-Safe r control_loop d v =
      let l =
        thread_steps-Later (r.before_collect control_loop) d.control_worker v.control_ok.one_job in
      let f = Quiet-Later _ _ l v.control_ok in
      collected (Safe clock begin floor finish) _ _ l.one_job (λ w' c.
        after_next w' _ (record d { control_worker = w' }) (Quiet-next _ w' _ c refl f)
          (set_control clock later begin floor finish d v w'))
  collect_role-Safe r mapping d v =
      let l = thread_steps-Later (r.before_collect mapping) d.mapping_worker v.mapping_ok.one_job in
      let f = Quiet-Later _ _ l v.mapping_ok in
      collected (Safe clock begin floor finish) _ _ l.one_job (λ w' c.
        after_next w' _ (record d { mapping_worker = w' }) (Quiet-next _ w' _ c refl f)
          (set_mapping clock later begin floor finish d v w'))

  pub collect_all-Safe :
      (r : Round) (d : Dispatcher)
      → Safe clock begin floor finish d
      → Fine (Safe clock begin floor finish) (collect_all clock r d)
  unfolding collect_all
  collect_all-Safe r d v =
      let next = λ (role : Role). collect_role-Safe r role in
      let S = Safe clock begin floor finish in
      Fine-bind S S _ _ (next imu_processing d v) λ d1 v1.
        Fine-bind S S _ _ (next camera_processing d1 v1) λ d2 v2.
          Fine-bind S S _ _ (next estimator d2 v2) λ d3 v3.
            Fine-bind S S _ _ (next control_loop d3 v3) λ d4 v4.
              Fine-bind S S _ _ (next mapping d4 v4) λ d5 v5.
                Fine-bind (λ _. Unit) S _ _ (collect_hogs-Fine r 0 d5.hogs)
                  λ hogs _. set_hogs clock later begin floor finish d5 v5 hogs
