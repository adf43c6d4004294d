-- ===== src/Dispatcher/Tests.antt =====
-- demo/dependent_workload.cpp, `main`: two rounds of the loop.
use scx_slam_fresh.Base.{◌*◌, ◌≡◌, refl, true, false, [], ◌∷◌, err, arith}
use scx_slam_fresh.Graph.{camera, select, control, fill}
use scx_slam_fresh.Worker.{
  WorkerError, worker_failed, dispatch, hand_over, collect, count_result, new_worker, thread_wakes,
  thread_ends, thread_fails, take_slot, post_result,
}
use scx_slam_fresh.Worker
use scx_slam_fresh.Dispatcher.{
  ms, wakes, fails, LoopError, worker_error, thread_steps, thread_step, produce, produce_one,
  offer_batch,
}
use scx_slam_fresh.Dispatcher.Loop.{
  Window, Round, start, loop, round, collect_all, collect_role, collect_hogs, run_completion,
  release_work, control_ticks, control_one, start_estimator, dispatch_all, dispatch_role,
  dispatch_hogs, offer_hogs, hog_job,
}
use scx_slam_fresh.Dispatcher.Run.{
  clock, waking_round, finishing_round, new, graph_is_new, mapping_completed, run_ends,
}
use scx_slam_fresh.Dispatcher.Safety.{only_workers_fail}
use scx_slam_fresh.Dispatcher.Accounts.{Settled, accounts_settle}

abbrev window : Window
window = record { begin = 100 * ms; finish = 200 * ms; burst = false }

-- Every thread fails with its job.
abbrev failing_round : Round
failing_round = record waking_round { before_collect = λ r. wakes ∷ fails ∷ [] }

thread_failure :
    loop clock window (waking_round ∷ failing_round ∷ []) (start true 1 window new)
    ≡ err (worker_error worker_failed)
unfolding loop round collect_all collect_role collect_hogs run_completion release_work control_ticks
    control_one start_estimator dispatch_all dispatch_role dispatch_hogs offer_hogs hog_job produce
    produce_one offer_batch thread_steps thread_step start new_worker Worker.offer dispatch
    hand_over collect count_result thread_wakes thread_ends thread_fails take_slot post_result
    select control fill
thread_failure = refl

only_workers_fail_example :
    (w : WorkerError) × (◌≡◌ {A = LoopError} (worker_error worker_failed) (worker_error w))
only_workers_fail_example =
    only_workers_fail clock (100 * ms) (200 * ms) false true 1 32 8
      (waking_round ∷ failing_round ∷ []) (worker_error worker_failed) (λ n. omega arith)
      (omega arith) (omega arith) graph_is_new thread_failure

accounts_settle_example :
    Settled
      (50 * ms)
      (100 * ms)
      (105 * ms)
      (record { next = 150 * ms; produced = 1 })
      mapping_completed.camera_worker
      mapping_completed.graph.lane_camera
accounts_settle_example =
    accounts_settle clock (100 * ms) (105 * ms) false true 0 32 8
      (waking_round ∷ finishing_round ∷ finishing_round ∷ finishing_round ∷ []) mapping_completed
      camera (λ n. omega arith) (omega arith) (omega arith) graph_is_new run_ends
