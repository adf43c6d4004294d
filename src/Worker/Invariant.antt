-- ===== src/Worker/Invariant.antt =====
-- demo/dependent_workload.cpp, `Worker`: one job at a time, in the order of the offers, under its hint.
pub mod State
pub mod Calls
pub mod Thread
use scx_slam_fresh.Base.{
  not, refl, ℕ, ◌+◌, ◌<◌, Bool, List, [], ◌∷◌, inl, inr, length, arith, ◌^◌, Bool-cases, subst,
}
use scx_slam_fresh.Worker.Invariant.State.{Inv}
use scx_slam_fresh.Worker.{
  Worker, act, WorkerAction, act_all, collect, dispatch, new_worker, or_same, thread_ends,
}
use scx_slam_fresh.Worker.Invariant.Calls.{
  offer-Inv, later-Inv, dispatch-Inv, count_result-Inv, finish-Inv,
}
use scx_slam_fresh.Worker.Invariant.Thread.{wakes-Inv, post_result-Inv, fails-Inv}

act-Inv : (n : ℕ) (a : WorkerAction) (w : Worker) → n + 1 < 2 ^ 64 → Inv n w → Inv (n + 1) (act a w)
unfolding act
act-Inv n (WorkerAction.offers j) w small i = offer-Inv n j w small i
act-Inv n (WorkerAction.dispatches now publish_fails) w small i =
    later-Inv n _ (dispatch-Inv n now publish_fails w i)
act-Inv n WorkerAction.collects w small i = later-Inv n _ (
    unfold collect or_same in
    elim (Bool-cases w.error) [
      | inl k ↦ simp k i
      | inr k ↦ simp k (count_result-Inv n w.result w small refl i)
    ])
act-Inv n (WorkerAction.finishes publish_fails) w small i =
    later-Inv n _ (finish-Inv n publish_fails w i)
act-Inv n WorkerAction.wakes w small i = later-Inv n _ (wakes-Inv n w i)
act-Inv n (WorkerAction.ends start end_ns used) w small i =
    later-Inv n _ (unfold thread_ends in post_result-Inv n start end_ns used w.running w refl i)
act-Inv n WorkerAction.fails w small i = later-Inv n _ (fails-Inv n w i)

act_all-Inv :
    (n : ℕ) (acts : List WorkerAction) (w : Worker)
    → n + length acts < 2 ^ 64
    → Inv n w
    → Inv (n + length acts) (act_all acts w)
unfolding act_all
act_all-Inv n [] w small i = subst (λ k. Inv k w) (omega arith) i
act_all-Inv n (a ∷ acts) w small i =
    subst (λ k. Inv k (act_all acts (act a w))) (omega arith)
      (act_all-Inv (n + 1) acts (act a w) (omega arith) (act-Inv n a w (omega arith) i))

-- After fewer than 2 ^ 64 calls and moves of a new worker, in any order and with any failure: at
-- most one job is between `dispatch` and `collect`, and exactly one if the worker is busy and has
-- not failed; with hints on, the hint is that of the job in the thread, and of the job in the slot
-- while the thread has not left; a thread that has left runs nothing; every job offered is dropped, completed, queued or the one in flight; at most 32 are queued; and `complete`
-- was called once for each job completed, of which the late ones are part.
pub worker_runs_one :
    (qos : Bool) (acts : List WorkerAction)
    → length acts < 2 ^ 64
    → Inv (length acts) (act_all acts (new_worker qos))
worker_runs_one qos acts small =
    let new : Inv 0 (new_worker qos) =
      unfold new_worker in
      record {
        one_job = λ q. refl;
        at_most = omega arith;
        conserved = omega arith;
        short = omega arith;
        few = omega arith;
        late_completed = omega arith;
        all_completed = refl;
        slot_hinted = λ j q z r. ground arith;
        running_inside = λ q. ground arith;
        running_hinted = λ j q r. ground arith;
      } in
    subst (λ k. Inv k (act_all acts (new_worker qos))) (omega arith)
      (act_all-Inv 0 acts (new_worker qos) (omega arith) new)
