-- ===== src/Executor/Spin/Ownership/Worker.antt =====
-- ros2/scx_slam_executor/src/freshness_executor.cpp, `spin`: the worker's moves keep the ownership.
use scx_slam_fresh.Base.{◌≡◌, arith}
use scx_slam_fresh.Executor.Spin.{
  State, WorkerPc, WorkerChoice, worker_move, release_callback_group, return_taken_message,
}
use scx_slam_fresh.Executor.Spin.Ownership.{Inv, InvAfter}

pub worker_move-Inv :
    (pc : WorkerPc) (c : WorkerChoice) (s : State)
    → s.worker ≡ pc
    → Inv s
    → InvAfter (worker_move pc c s)
unfolding worker_move release_callback_group return_taken_message
worker_move-Inv WorkerPc.configure WorkerChoice.goes s e v = ground arith
worker_move-Inv WorkerPc.configure WorkerChoice.throws s e v = ground arith
worker_move-Inv WorkerPc.notify_ready WorkerChoice.goes s e v = ground arith
worker_move-Inv WorkerPc.park WorkerChoice.goes s e v = ground arith
worker_move-Inv WorkerPc.parked WorkerChoice.goes s e v = ground arith
worker_move-Inv (WorkerPc.accept w) (WorkerChoice.at_time now) s e v = ground arith
worker_move-Inv (WorkerPc.accept w) WorkerChoice.throws s e v = ground arith
worker_move-Inv (WorkerPc.reject w) WorkerChoice.goes s e v = ground arith
worker_move-Inv (WorkerPc.reject w) WorkerChoice.throws s e v = ground arith
worker_move-Inv (WorkerPc.run w) WorkerChoice.goes s e v = ground arith
worker_move-Inv (WorkerPc.run w) WorkerChoice.throws s e v = ground arith
worker_move-Inv (WorkerPc.clean_up w) WorkerChoice.goes s e v = ground arith
worker_move-Inv (WorkerPc.clean_up w) WorkerChoice.throws s e v = ground arith
worker_move-Inv WorkerPc.fail WorkerChoice.goes s e v = ground arith
worker_move-Inv WorkerPc.notify_failed WorkerChoice.goes s e v = ground arith
worker_move-Inv WorkerPc.cancel WorkerChoice.goes s e v = ground arith
worker_move-Inv _ _ s e v = tt
