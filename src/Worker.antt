-- ===== src/Worker.antt =====
-- demo/dependent_workload.cpp, `Worker`: a queue of jobs, a thread that runs them one at a time, and
-- the hint that is published for each.
--
-- The main thread calls `offer`, `dispatch`, `collect` and `finish`; the worker's thread takes the
-- slot, ends the job and may fail. Each is one critical section. What the clocks show and whether a
-- publication fails are arguments. A call that throws changes nothing.
pub mod Invariant
pub mod Order
mod Tests
use scx_slam_fresh.Base.{
  ℕ, ◌+◌, Bool, true, false, not, ◌&&◌, ◌||◌, List, [], ◌∷◌, ◌++◌, Option, none, some, has_value,
  ◌==◌, if◌then◌else◌, ltb, length, add64, sub64, Result, ok, err,
}
use scx_slam_fresh.Graph.{Measurement, Batch, Control, Outcome}

-- The functions that `main` stores as a `complete`, with what they capture.
pub data Completion : Type 0 where
  does_nothing : Completion
  offers_measurement : Measurement → Completion
  completes_batch : Batch → Completion
  reports_control : Control → Completion

pub record Job : Type 0 where
  pub id : ℕ
  pub release : ℕ
  pub deadline : ℕ
  pub work : ℕ
  pub complete : Completion
  pub assigned : ℕ
  pub budget : ℕ
  pub outcome : Option Outcome

-- `Result` of the source.
pub record JobResult : Type 0 where
  pub job : Job
  pub start : ℕ
  pub finish : ℕ
  pub cpu : ℕ

-- Besides the members: the job that the thread holds in its loop, the job id that the map holds for
-- the thread, and the calls of `complete`, by id and in order.
pub record Worker : Type 0 where
  pub qos : Bool
  pub queue : List Job
  pub slot : Option Job
  pub result : Option JobResult
  pub stopping : Bool
  pub error : Bool
  pub busy : Bool
  pub offered : ℕ
  pub dropped : ℕ
  pub completed : ℕ
  pub late : ℕ
  pub cpu_time : ℕ
  pub max_start : ℕ
  pub max_age : ℕ
  pub running : Option Job
  pub exited : Bool
  pub hint : Option ℕ
  pub completions : List ℕ

-- Once the thread is enrolled and ready.
unfoldable pub new_worker : Bool → Worker
new_worker qos = record {
  qos = qos;
  queue = [];
  slot = none;
  result = none;
  stopping = false;
  error = false;
  busy = false;
  offered = 0;
  dropped = 0;
  completed = 0;
  late = 0;
  cpu_time = 0;
  max_start = 0;
  max_age = 0;
  running = none;
  exited = false;
  hint = none;
  completions = [];
}

pub data WorkerError : Type 0 where
  worker_failed publication_failed : WorkerError

unfoldable pub offer : Job → Worker → Bool × Worker
offer j w =
    let w1 = record w { offered = add64 w.offered 1 } in
    if length w1.queue == 32
    then (false, record w1 { dropped = add64 w1.dropped 1 })
    else (true, record w1 { queue = w1.queue ++ (j ∷ []) })

unfoldable pub hand_over : ℕ → Bool → List Job → Worker → Result WorkerError Worker
hand_over now publish_fails [] w = ok w
hand_over now publish_fails (j ∷ js) w =
    if w.qos && publish_fails
    then err publication_failed
    else ok (record w {
      hint = if w.qos then some j.id else w.hint;
      slot = some (record j { assigned = now });
      queue = js;
      busy = true;
    })

unfoldable pub dispatch : ℕ → Bool → Worker → Result WorkerError Worker
dispatch now publish_fails w =
    if w.error
    then err worker_failed
    else if w.busy
    then ok w
    else hand_over now publish_fails w.queue w

unfoldable pub maximum : ℕ → ℕ → ℕ
maximum a b = if ltb a b then b else a

unfoldable pub count_result : Option JobResult → Worker → Worker
count_result none w = w
count_result (some d) w = record w {
  result = none;
  busy = false;
  completed = add64 w.completed 1;
  cpu_time = add64 w.cpu_time d.cpu;
  max_start = maximum w.max_start (sub64 d.start d.job.release);
  max_age = maximum w.max_age (sub64 d.finish d.job.release);
  late = if ltb d.job.deadline d.finish then add64 w.late 1 else w.late;
  completions = w.completions ++ (d.job.id ∷ []);
}

unfoldable pub collect : Worker → Result WorkerError Worker
collect w = if w.error then err worker_failed else ok (count_result w.result w)

-- The critical section of `finish`; the hint is retired only when nothing is owned any more.
unfoldable pub finish_worker : Bool → Worker → Worker
finish_worker publish_fails w =
    let drained =
      w.qos
      && (not w.busy && (not (has_value w.slot) && (not (has_value w.result) && not w.error))) in
    let w1 =
      if drained
      then (if publish_fails then record w { error = true } else record w { hint = none })
      else w in
    record w1 { stopping = true }

unfoldable pub take_slot : Option Job → Worker → Worker
take_slot none w = w
take_slot (some j) w = record w { slot = none; running = some j }

-- The thread, once it wakes: out of the loop, where it clears its hint, or with the job of the slot.
-- Where the clearing or the return to the ordinary policy throws, the move is `thread_fails`.
unfoldable pub thread_wakes : Worker → Worker
thread_wakes w =
    if w.exited || has_value w.running
    then w
    else if w.stopping
    then record w { exited = true; hint = if w.qos then none else w.hint }
    else take_slot w.slot w

unfoldable pub post_result : Option Job → ℕ → ℕ → ℕ → Worker → Worker
post_result none start end_ns used w = w
post_result (some j) start end_ns used w = record w {
  running = none;
  result = some (record { job = j; start = start; finish = end_ns; cpu = used });
}

unfoldable pub thread_ends : ℕ → ℕ → ℕ → Worker → Worker
thread_ends start end_ns used w = post_result w.running start end_ns used w

-- The thread's `catch`, in the loop or on the way out: a job that it held is lost.
unfoldable pub thread_fails : Worker → Worker
thread_fails w = record w { error = true; running = none; exited = true }

pub data WorkerAction : Type 0 where
  offers : Job → WorkerAction
  dispatches : ℕ → Bool → WorkerAction
  collects : WorkerAction
  finishes : Bool → WorkerAction
  wakes : WorkerAction
  ends : ℕ → ℕ → ℕ → WorkerAction
  fails : WorkerAction

unfoldable pub or_same : Worker → Result WorkerError Worker → Worker
or_same w (ok v) = v
or_same w (err e) = w

unfoldable pub act : WorkerAction → Worker → Worker
act (WorkerAction.offers j) w = (offer j w).1
act (WorkerAction.dispatches now publish_fails) w = or_same w (dispatch now publish_fails w)
act WorkerAction.collects w = or_same w (collect w)
act (WorkerAction.finishes publish_fails) w = finish_worker publish_fails w
act WorkerAction.wakes w = thread_wakes w
act (WorkerAction.ends start end_ns used) w = thread_ends start end_ns used w
act WorkerAction.fails w = thread_fails w

unfoldable pub act_all : List WorkerAction → Worker → Worker
act_all [] w = w
act_all (a ∷ acts) w = act_all acts (act a w)
