-- ===== src/Dispatcher/Safety.antt =====
-- demo/dependent_workload.cpp, `main`: the loop never breaks the graph's rules.
pub mod State
pub mod Workers
pub mod Jobs
pub mod Batches
pub mod Parts
pub mod Completions
pub mod Collect
pub mod Release
pub mod Produced
pub mod Dispatch
pub mod Rounds
use native.Mathlib.Nat.{le_trans, le_refl}
use scx_slam_fresh.Base.{
  ℕ, zero, suc, ◌+◌, ◌*◌, ◌^◌, ◌≤◌, ◌<◌, ◌≡◌, ◌≢◌, refl, ◌∙◌, sym, subst, Bool, true, false, List,
  [], ◌∷◌, Option, none, some, length, Result, ok, err, arith, Bool-cases, inl, inr, OnOk, ◌>>=◌,
  All, ◌==◌, ◌&&◌, leb,
}
use scx_slam_fresh.Graph.{imu, camera, Graph, GraphError, new_graph}
use scx_slam_fresh.Graph.Invariant.{new_graph-Inv}
use scx_slam_fresh.Graph.Returns.{new_graph-Advanced}
use scx_slam_fresh.Worker.{Worker, WorkerError, dispatch, new_worker}
use scx_slam_fresh.Worker.Order.{OneJob}
use scx_slam_fresh.Dispatcher.{
  ms, Role, imu_processing, camera_processing, estimator, control_loop, mapping, Dispatcher, Source,
  LoopError, graph_error, empty_batch, no_camera, worker_error, from_worker, thread_steps,
}
use scx_slam_fresh.Dispatcher.Loop.{
  Window, Round, dispatch_role, dispatch_hogs, dispatch_all, round, loop, start, new_hogs,
}
use scx_slam_fresh.Dispatcher.Safety.State.{Fine, Fine-bind, Feeding, Estimating, Quiet, Safe}
use scx_slam_fresh.Dispatcher.Safety.Workers.{
  Later, dispatch-Later, thread_steps-Later, Later-trans, Feeding-Later, Estimating-Later,
  Quiet-Later,
}
use scx_slam_fresh.Dispatcher.Safety.Jobs.{Feeding-later}
use scx_slam_fresh.Dispatcher.Safety.Parts.{
  from_worker-Fine, set_imu, set_camera, set_estimator, set_control, set_mapping, set_hogs,
}
use scx_slam_fresh.Dispatcher.Safety.Collect.{collect_all-Safe}
use scx_slam_fresh.Dispatcher.Safety.Rounds.{After, loop-After, start-Safe}

Fine-worker_error :
    {A : Type 0} (P : A → Type 0) (r : Result LoopError A) (e : LoopError)
    → Fine P r
    → r ≡ err e
    → (w : WorkerError) × (e ≡ worker_error w)
Fine-worker_error P (ok a) e h q = cc
Fine-worker_error P (err (worker_error w)) e h q = (w, cc)
Fine-worker_error P (err (graph_error g)) e h q = absurd h
Fine-worker_error P (err empty_batch) e h q = absurd h
Fine-worker_error P (err no_camera) e h q = absurd h

-- Let the readings of the clock not run backwards, the window not end before it begins, and its end
-- be at least 50 ms away from the largest word. Then, for a new graph and new workers, whatever their
-- threads do in any rounds of the loop, and whichever publications fail, the only exception that can
-- leave the loop is a worker's. So the graph never throws: no measurement is offered before its time
-- or twice, no batch is completed by another job than its own, and the calls are in the order of
-- time. And neither is the first input read of an empty batch, nor the camera's measurement of a
-- snapshot that has none.
pub only_workers_fail :
    (clock : ℕ → ℕ) (begin finish : ℕ) (burst hints : Bool) (hogs capacity limit : ℕ) {g : Graph}
    (rounds : List Round) (e : LoopError)
    → ((n : ℕ) → clock n ≤ clock (suc n))
    → begin ≤ finish
    → finish + 50 * ms < 2 ^ 64
    → new_graph capacity limit ≡ ok g
    → let win : Window = record { begin = begin; finish = finish; burst = burst } in
      loop clock win rounds (start hints hogs win g) ≡ err e
      → (w : WorkerError) × (e ≡ worker_error w)
only_workers_fail clock begin finish burst hints hogs capacity limit rounds e later h small q r =
    Fine-worker_error (After clock later begin finish small burst) _ e
      (loop-After clock later begin finish small burst rounds _
        (start-Safe clock later begin finish small burst hints hogs capacity limit q h))
      r
