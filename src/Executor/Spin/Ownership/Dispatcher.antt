-- ===== src/Executor/Spin/Ownership/Dispatcher.antt =====
-- ros2/scx_slam_executor/src/freshness_executor.cpp, `spin`: the dispatcher's moves keep the
-- ownership.
use scx_slam_fresh.Base.{◌≡◌, arith}
use scx_slam_fresh.Executor.Spin.{
  State, DispatcherPc, DispatcherChoice, dispatcher_move, release_callback_group,
  return_taken_message,
}
use scx_slam_fresh.Executor.Spin.Ownership.{Inv, InvAfter}

pub dispatcher_move-Inv :
    (pc : DispatcherPc) (c : DispatcherChoice) (s : State)
    → s.dispatcher ≡ pc
    → Inv s
    → InvAfter (dispatcher_move pc c s)
unfolding dispatcher_move release_callback_group return_taken_message
dispatcher_move-Inv DispatcherPc.wait_ready DispatcherChoice.goes s e' v = ground arith
dispatcher_move-Inv DispatcherPc.check_loop (DispatcherChoice.context_ok ok) s e' v = ground arith
dispatcher_move-Inv DispatcherPc.wait_idle DispatcherChoice.goes s e' v = ground arith
dispatcher_move-Inv DispatcherPc.select_next DispatcherChoice.nothing s e' v = ground arith
dispatcher_move-Inv DispatcherPc.select_next DispatcherChoice.throws s e' v = ground arith
dispatcher_move-Inv DispatcherPc.select_next (DispatcherChoice.selects e b) s e' v = ground arith
dispatcher_move-Inv (DispatcherPc.prepare e b) DispatcherChoice.throws s e' v = ground arith
dispatcher_move-Inv (DispatcherPc.prepare e b) (DispatcherChoice.at_time now) s e' v = ground arith
dispatcher_move-Inv (DispatcherPc.take e b) DispatcherChoice.nothing s e' v = ground arith
dispatcher_move-Inv (DispatcherPc.take e b) DispatcherChoice.throws s e' v = ground arith
dispatcher_move-Inv (DispatcherPc.take e b) (DispatcherChoice.takes m) s e' v = ground arith
dispatcher_move-Inv (DispatcherPc.observe w) DispatcherChoice.goes s e' v = ground arith
dispatcher_move-Inv (DispatcherPc.observe w) DispatcherChoice.throws s e' v = ground arith
dispatcher_move-Inv (DispatcherPc.admit w) (DispatcherChoice.at_time now) s e' v = ground arith
dispatcher_move-Inv (DispatcherPc.admit w) DispatcherChoice.throws s e' v = ground arith
dispatcher_move-Inv (DispatcherPc.drop w) DispatcherChoice.goes s e' v = ground arith
dispatcher_move-Inv (DispatcherPc.drop w) DispatcherChoice.throws s e' v = ground arith
dispatcher_move-Inv (DispatcherPc.publish w) DispatcherChoice.goes s e' v = ground arith
dispatcher_move-Inv (DispatcherPc.publish w) DispatcherChoice.throws s e' v = ground arith
dispatcher_move-Inv (DispatcherPc.hand_over w) DispatcherChoice.goes s e' v = ground arith
dispatcher_move-Inv DispatcherPc.notify_work DispatcherChoice.goes s e' v = ground arith
dispatcher_move-Inv DispatcherPc.close DispatcherChoice.goes s e' v = ground arith
dispatcher_move-Inv DispatcherPc.drain DispatcherChoice.goes s e' v = ground arith
dispatcher_move-Inv DispatcherPc.drain DispatcherChoice.throws s e' v = ground arith
dispatcher_move-Inv DispatcherPc.notify_stop DispatcherChoice.goes s e' v = ground arith
dispatcher_move-Inv DispatcherPc.join DispatcherChoice.goes s e' v = ground arith
dispatcher_move-Inv _ _ s e' v = tt
