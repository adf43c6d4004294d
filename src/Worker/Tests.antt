-- ===== src/Worker/Tests.antt =====
-- demo/dependent_workload.cpp, `Worker`: two jobs, one after the other.
use scx_slam_fresh.Base.{
  ◌≡◌, refl, ℕ, true, false, ◌++◌, List, [], ◌∷◌, some, none, arith, ◌*◌, ◌+◌,
}
use scx_slam_fresh.Worker.Invariant.State.{Inv}
use scx_slam_fresh.Worker.Invariant.{worker_runs_one}
use scx_slam_fresh.Worker.Order.{outstanding}
use scx_slam_fresh.Worker.Order.Fifo.{ids, accepted, completes_in_order}
use scx_slam_fresh.Worker.{
  Job, does_nothing, WorkerAction, act_all, act, new_worker, offer, dispatch, hand_over, or_same,
  thread_wakes, take_slot, thread_ends, post_result, collect, count_result,
}

abbrev job : ℕ → Job
job n = record {
  id = n;
  release = n * 100;
  deadline = n * 100 + 50;
  work = 10;
  complete = does_nothing;
  assigned = 0;
  budget = 0;
  outcome = none;
}

abbrev actions : List WorkerAction
actions =
    WorkerAction.offers (job 1)
    ∷ WorkerAction.offers (job 2)
    ∷ WorkerAction.dispatches 110 false
    ∷ WorkerAction.wakes
    ∷ WorkerAction.dispatches 111 false
    ∷ WorkerAction.ends 112 130 10
    ∷ WorkerAction.collects
    ∷ WorkerAction.dispatches 140 false
    ∷ WorkerAction.wakes
    ∷ []

-- The second dispatch waits for the first job.
second_runs : (act_all actions (new_worker true)).hint ≡ some 2
unfolding act_all act offer dispatch hand_over or_same thread_wakes take_slot thread_ends
    post_result collect count_result new_worker
second_runs = refl

worker_runs_one_example : Inv 9 (act_all actions (new_worker true))
worker_runs_one_example = worker_runs_one true actions (omega arith)

no_failure : (act_all actions (new_worker true)).error ≡ false
unfolding act_all act offer dispatch hand_over or_same thread_wakes take_slot thread_ends
    post_result collect count_result new_worker
no_failure = refl

completes_in_order_example :
    let w = act_all actions (new_worker true) in
    w.completions ++ ids (outstanding w) ≡ accepted actions (new_worker true)
completes_in_order_example = completes_in_order true actions no_failure
