-- ===== src/Dispatcher/Safety/Dispatch.antt =====
-- demo/dependent_workload.cpp, `main`: `dispatch` of each worker.
use native.Mathlib.Nat.{le_trans, le_refl}
use scx_slam_fresh.Base.{
  ℕ, zero, suc, ◌+◌, ◌*◌, ◌^◌, ◌≤◌, ◌<◌, ◌≡◌, subst, List, [], ◌∷◌, length, Result, ok, err, arith,
  OnOk, ◌>>=◌,
}
use scx_slam_fresh.Graph.{imu, camera}
use scx_slam_fresh.Worker.{Worker, WorkerError, dispatch}
use scx_slam_fresh.Worker.Order.{OneJob}
use scx_slam_fresh.Dispatcher.{
  ms, Role, imu_processing, camera_processing, estimator, control_loop, mapping, Dispatcher,
  LoopError, from_worker, thread_steps,
}
use scx_slam_fresh.Dispatcher.Loop.{Round, dispatch_role, dispatch_hogs, dispatch_all}
use scx_slam_fresh.Dispatcher.Safety.State.{Fine, Fine-bind, Safe}
use scx_slam_fresh.Dispatcher.Safety.Workers.{
  Later, dispatch-Later, thread_steps-Later, Later-trans, Feeding-Later, Estimating-Later,
  Quiet-Later,
}
use scx_slam_fresh.Dispatcher.Safety.Jobs.{Feeding-later}
use scx_slam_fresh.Dispatcher.Safety.Parts.{
  from_worker-Fine, set_imu, set_camera, set_estimator, set_control, set_mapping, set_hogs,
}

dispatch_hogs-Fine :
    (clock : ℕ → ℕ) (r : Round) (reads i : ℕ) (ws : List Worker)
    → Fine (λ _. Unit {0}) (dispatch_hogs clock r reads i ws)
unfolding dispatch_hogs
dispatch_hogs-Fine clock r reads i [] = tt
dispatch_hogs-Fine clock r reads i (w ∷ ws) =
    Fine-bind (λ _. Unit) (λ _. Unit) (from_worker m) _ (from_worker-Fine (λ _. Unit) m (always m))
      (λ w' _.
        Fine-bind (λ _. Unit) (λ _. Unit) (dispatch_hogs clock r (suc reads) (suc i) ws) _
          (dispatch_hogs-Fine clock r (suc reads) (suc i) ws) (λ _ _. tt))
  where
    m : Result WorkerError Worker
    m = dispatch (clock reads) (r.hog_publish_fails i) (thread_steps (r.hog_before_dispatch i) w)

    always : (m : Result WorkerError Worker) → OnOk (λ _. Unit {0}) m
    always (ok a) = tt
    always (err e) = tt

module _ (clock : ℕ → ℕ) (later : (n : ℕ) → clock n ≤ clock (suc n)) (begin floor finish : ℕ)
    (small : finish + 50 * ms < 2 ^ 64) where
  -- More readings of the clock.
  pub reads-Safe :
      (n : ℕ) (d : Dispatcher)
      → clock d.reads ≤ clock n
      → Safe clock begin floor finish d
      → Safe clock begin floor finish (record d { reads = n })
  reads-Safe n d k v = record {
    time = le_trans v.time k;
    imu_ok = Feeding-later begin imu _ _ _ _ _ k v.imu_ok;
    camera_ok = Feeding-later begin camera _ _ _ _ _ k v.camera_ok;
    imu_far = v.imu_far;
    camera_far = v.camera_far;
    imu_near = v.imu_near;
    camera_near = v.camera_near;
    estimator_ok = v.estimator_ok;
    control_ok = v.control_ok;
    mapping_ok = v.mapping_ok;
    graph_ok = v.graph_ok;
  }

  clock-add : (n k : ℕ) → clock n ≤ clock (n + k)
  clock-add n zero =
      let e : n ≡ n + 0 = omega arith in subst (λ m. clock n ≤ clock m) e (le_refl (clock n))
  clock-add n (suc k) =
      let e : suc (n + k) ≡ n + suc k = omega arith in
      subst (λ m. clock n ≤ clock m) e (le_trans (clock-add n k) (later (n + k)))

  -- The thread's moves, then `dispatch`.
  dispatched :
      (r : Round) (role : Role) (w : Worker) (k : Worker → Result LoopError Dispatcher) (now : ℕ)
      → OneJob w
      → ((w' : Worker) → Later w w' → Fine (Safe clock begin floor finish) (k w'))
      → Fine (Safe clock begin floor finish) (
          from_worker
            (dispatch now (r.publish_fails role) (thread_steps (r.before_dispatch role) w))
          >>= k)
  dispatched r role w k now i next =
      let l = thread_steps-Later (r.before_dispatch role) w i in
      Fine-bind (Later (thread_steps (r.before_dispatch role) w)) (Safe clock begin floor finish) _
        k (from_worker-Fine (Later _) _ (dispatch-Later now (r.publish_fails role) _ l.one_job))
        (λ w' m. next w' (Later-trans _ _ _ l m))

  dispatch_role-Safe :
      (r : Round) (role : Role) (d : Dispatcher)
      → Safe clock begin floor finish d
      → Fine (Safe clock begin floor finish) (dispatch_role clock r role d)
  unfolding dispatch_role
  dispatch_role-Safe r imu_processing d v =
      let v1 = reads-Safe (suc d.reads) d (later d.reads) v in
      dispatched r imu_processing d.imu_worker _ _ v.imu_ok.one_job (λ w l.
        set_imu clock later begin floor finish _ v1 w d.imu_source v.imu_far v.imu_near
          (Feeding-Later _ w l v1.imu_ok))
  dispatch_role-Safe r camera_processing d v =
      let v1 = reads-Safe (suc d.reads) d (later d.reads) v in
      dispatched r camera_processing d.camera_worker _ _ v.camera_ok.one_job (λ w l.
        set_camera clock later begin floor finish _ v1 w d.camera_source v.camera_far v.camera_near
          (Feeding-Later _ w l v1.camera_ok))
  dispatch_role-Safe r estimator d v =
      let v1 = reads-Safe (suc d.reads) d (later d.reads) v in
      dispatched r estimator d.estimator_worker _ _ v.estimator_ok.one_job (λ w l.
        set_estimator clock later begin floor finish _ v1 w d.burst_job
          (Estimating-Later _ w l v1.estimator_ok))
  dispatch_role-Safe r control_loop d v =
      let v1 = reads-Safe (suc d.reads) d (later d.reads) v in
      dispatched r control_loop d.control_worker _ _ v.control_ok.one_job
        (λ w l. set_control clock later begin floor finish _ v1 w (Quiet-Later _ w l v1.control_ok))
  dispatch_role-Safe r mapping d v =
      let v1 = reads-Safe (suc d.reads) d (later d.reads) v in
      dispatched r mapping d.mapping_worker _ _ v.mapping_ok.one_job
        (λ w l. set_mapping clock later begin floor finish _ v1 w (Quiet-Later _ w l v1.mapping_ok))

  pub dispatch_all-Safe :
      (r : Round) (d : Dispatcher)
      → Safe clock begin floor finish d
      → Fine (Safe clock begin floor finish) (dispatch_all clock r d)
  unfolding dispatch_all
  dispatch_all-Safe r d v =
      let next = λ (role : Role). dispatch_role-Safe r role in
      let S = Safe clock begin floor finish in
      Fine-bind S S _ _ (next imu_processing d v) λ d1 v1.
        Fine-bind S S _ _ (next camera_processing d1 v1) λ d2 v2.
          Fine-bind S S _ _ (next estimator d2 v2) λ d3 v3.
            Fine-bind S S _ _ (next control_loop d3 v3) λ d4 v4.
              Fine-bind S S _ _ (next mapping d4 v4) λ d5 v5.
                Fine-bind (λ _. Unit) S _ _ (dispatch_hogs-Fine clock r d5.reads 0 d5.hogs)
                  λ hogs _.
                    reads-Safe (d5.reads + length d5.hogs) (record d5 { hogs = hogs })
                      (clock-add d5.reads (length d5.hogs))
                      (set_hogs clock later begin floor finish d5 v5 hogs)
