-- ===== src/Dispatcher/Safety/Workers.antt =====
-- demo/dependent_workload.cpp, `Worker`, under the main loop: what one operation does to its jobs.
use scx_slam_fresh.Base.{
  ℕ, add64, none, some, ◌+◌, ◌≡◌, refl, ◌∙◌, sym, Bool, false, List, [], ◌∷◌, ◌++◌, Option, length,
  arith, OnOk, OnOk-both,
}
use scx_slam_fresh.Graph.{Stream, Batch}
use scx_slam_fresh.Graph.Returns.{Note}
use scx_slam_fresh.Worker.{
  Worker, Job, JobResult, thread_wakes, take_slot, thread_ends, post_result, thread_fails, dispatch,
  hand_over, collect, count_result,
}
use scx_slam_fresh.Worker.Order.{
  returned, outstanding, OneJob, Keeps, thread_wakes-Keeps, thread_ends-Keeps, thread_fails-OneJob,
  dispatch-Keeps, count_result-outstanding,
}
use scx_slam_fresh.Dispatcher.{Source, ThreadMove, wakes, ends, fails, thread_step, thread_steps}
use scx_slam_fresh.Dispatcher.Safety.State.{Feeding, Estimating, Quiet, load}

abbrev pub SameCounts : Worker → Worker → Type 0
SameCounts w w' = (w'.offered ≡ w.offered) × (w'.dropped ≡ w.dropped) × (w'.completed ≡ w.completed)

-- The jobs are as before, unless the worker fails.
pub record Later (w w' : Worker) : Type 0 where
  pub one_job : OneJob w'
  pub load_same : load w' ≡ load w
  pub counts_same : SameCounts w w'
  pub jobs_same : w'.error ≡ false → (w.error ≡ false) × (outstanding w' ≡ outstanding w)

-- What a move of the thread or a dispatch leaves of the counters.
abbrev Counts : Worker → Worker → Type 0
Counts w w' = (load w' ≡ load w) × SameCounts w w'

Keeps-Later : (w w' : Worker) → Keeps w w' → Counts w w' → Later w w'
Keeps-Later w w' k (e, c) = record {
  one_job = k.one_job;
  load_same = e;
  counts_same = c;
  jobs_same = λ q. (k.blames q, k.same);
}

take_slot-Counts : (o : Option Job) (w : Worker) → Counts w (take_slot o w)
unfolding take_slot
take_slot-Counts o w = ground arith

post_result-Counts :
    (o : Option Job) (start end_ns used : ℕ) (w : Worker)
    → Counts w (post_result o start end_ns used w)
unfolding post_result
post_result-Counts o start end_ns used w = ground arith

thread_wakes-Counts : (w : Worker) → Counts w (thread_wakes w)
unfolding thread_wakes
thread_wakes-Counts w = ground (arith, take_slot-Counts w.slot w)

thread_step-Later : (m : ThreadMove) (w : Worker) → OneJob w → Later w (thread_step m w)
unfolding thread_step thread_ends thread_fails
thread_step-Later wakes w i = Keeps-Later w _ (thread_wakes-Keeps w i) (thread_wakes-Counts w)
thread_step-Later (ends start end_ns used) w i =
    Keeps-Later w _ (thread_ends-Keeps start end_ns used w i)
      (post_result-Counts w.running start end_ns used w)
thread_step-Later fails w i = record {
  one_job = thread_fails-OneJob w i;
  load_same = refl;
  counts_same = (refl, refl, refl);
  jobs_same = λ e. cc;
}

Later-refl : (w : Worker) → OneJob w → Later w w
Later-refl w i = record {
  one_job = i;
  load_same = refl;
  counts_same = (refl, refl, refl);
  jobs_same = λ e. (e, refl);
}

pub Later-trans : (u v w : Worker) → Later u v → Later v w → Later u w
Later-trans u v w a b =
    let (p, q, r) = a.counts_same in
    let (p', q', r') = b.counts_same in
    record {
      one_job = b.one_job;
      load_same = b.load_same ∙ a.load_same;
      counts_same = (p' ∙ p, q' ∙ q, r' ∙ r);
      jobs_same = λ e. let (e', q) = b.jobs_same e in let (e'', p) = a.jobs_same e' in (e'', q ∙ p);
    }

pub thread_steps-Later :
    (moves : List ThreadMove) (w : Worker) → OneJob w → Later w (thread_steps moves w)
unfolding thread_steps
thread_steps-Later [] w i = Later-refl w i
thread_steps-Later (m ∷ moves) w i =
    let l = thread_step-Later m w i in
    Later-trans w _ _ l (thread_steps-Later moves (thread_step m w) l.one_job)

hand_over-Counts :
    (now : ℕ) (publish_fails : Bool) (js : List Job) (w : Worker)
    → w.queue ≡ js
    → w.busy ≡ false
    → OnOk (Counts w) (hand_over now publish_fails js w)
unfolding hand_over
hand_over-Counts now publish_fails js w e b = ground arith

dispatch-Counts :
    (now : ℕ) (publish_fails : Bool) (w : Worker) → OnOk (Counts w) (dispatch now publish_fails w)
unfolding dispatch
dispatch-Counts now publish_fails w = ground (arith, hand_over-Counts now publish_fails w.queue w)

pub dispatch-Later :
    (now : ℕ) (publish_fails : Bool) (w : Worker)
    → OneJob w
    → OnOk (Later w) (dispatch now publish_fails w)
dispatch-Later now publish_fails w i =
    OnOk-both (Keeps w) (Counts w) (Later w) (dispatch now publish_fails w)
      (dispatch-Keeps now publish_fails w i) (dispatch-Counts now publish_fails w) (Keeps-Later w)

abbrev pub one_more : Option JobResult → ℕ → ℕ
one_more none n = n
one_more (some r) n = add64 n 1

-- What `collect` leaves, if it does not throw.
pub record Collected (w w' : Worker) : Type 0 where
  pub healthy : w.error ≡ false
  pub one_job : OneJob w'
  pub jobs_left : outstanding w ≡ returned w.result ++ outstanding w'
  pub load_left : load w ≡ length (returned w.result) + load w'
  pub counts_left :
      (w'.offered ≡ w.offered)
      × (w'.dropped ≡ w.dropped)
      × (w'.completed ≡ one_more w.result w.completed)

count_result-Counts :
    (o : Option JobResult) (w : Worker)
    → w.result ≡ o
    → OneJob w
    → (load w ≡ length (returned o) + load (count_result o w))
      × ((count_result o w).offered ≡ w.offered)
      × ((count_result o w).dropped ≡ w.dropped)
      × ((count_result o w).completed ≡ one_more o w.completed)
unfolding count_result
count_result-Counts o w e i = ground arith

pub collect-Collected : (w : Worker) → OneJob w → OnOk (Collected w) (collect w)
unfolding collect
collect-Collected w i =
    ground
      (arith, count_result-outstanding w.result w refl i, count_result-Counts w.result w refl i)

module _ {begin : ℕ} {s : Stream} {source : Source} {note : Note} {t : ℕ} (w w' : Worker)
    (l : Later w w') where
  pub Feeding-Later : Feeding begin s w source note t → Feeding begin s w' source note t
  Feeding-Later f = record {
    one_job = l.one_job;
    counted = f.counted;
    offered = l.counts_same.0 ∙ f.offered;
    settled = omega (arith, l.counts_same, l.load_same, f.settled);
    handed = f.handed ∙ sym l.counts_same.2;
    paced = f.paced;
    jobs = λ e. let (e', q) = l.jobs_same e in rw q (f.jobs e');
  }

module _ (w w' : Worker) (l : Later w w') where
  pub Estimating-Later : {running : Option Batch} → Estimating w running → Estimating w' running
  Estimating-Later f = record {
    one_job = l.one_job;
    few = rw l.load_same f.few;
    idle = λ e. f.idle (sym l.load_same ∙ e);
    jobs = λ e. let (e', q) = l.jobs_same e in rw q (f.jobs e');
  }

  pub Quiet-Later : Quiet w → Quiet w'
  Quiet-Later f = record {
    one_job = l.one_job;
    jobs = λ e. let (e', q) = l.jobs_same e in rw q (f.jobs e');
  }
