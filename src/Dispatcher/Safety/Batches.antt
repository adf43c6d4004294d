-- ===== src/Dispatcher/Safety/Batches.antt =====
-- demo/dependent_workload.cpp, the estimator's jobs and those that do not call the graph.
use scx_slam_fresh.Base.{
  suc, ◌+◌, ◌≤◌, ◌≡◌, refl, ◌∙◌, sym, subst, ap, Bool, true, false, not, ◌&&◌, List, [], ◌∷◌, ◌++◌,
  Option, none, some, length, length-append, empty, All, All-append, arith, Bool-cases, inl, inr,
}
use scx_slam_fresh.Graph.{Batch}
use scx_slam_fresh.Worker.{Worker, Job, JobResult, completes_batch, offer}
use scx_slam_fresh.Worker.Order.{
  unassigned, queued, held, returned, outstanding, OneJob, full, offer-outstanding, offer-keeps,
  offer-OneJob,
}
use scx_slam_fresh.Worker.Invariant.State.{flag, holds}
use scx_slam_fresh.Dispatcher.{idle}
use scx_slam_fresh.Dispatcher.Safety.State.{Completes, Estimating, IsQuiet, Quiet, load}
use scx_slam_fresh.Dispatcher.Safety.Workers.{Collected}
use scx_slam_fresh.Dispatcher.Safety.Jobs.{left, loads}

-- What the estimator's next completion does.
abbrev pub NextBatch : Worker → Option Batch → Option JobResult → Type 0
NextBatch w running none = Estimating w running
NextBatch w running (some r) =
    (b : Batch) × (r.job.complete ≡ completes_batch b) × (running ≡ some b) × Estimating w none

length-returned : (r : Option JobResult) → length (returned r) ≡ holds r
length-returned none = refl
length-returned (some r) = refl

length-held : (o : Option Job) → length (held o) ≡ holds o
length-held none = refl
length-held (some j) = refl

length-queued : (js : List Job) → length (queued js) ≡ length js
length-queued [] = refl
length-queued (j ∷ js) = ap suc (length-queued js)

outstanding-load : (w : Worker) → OneJob w → length (outstanding w) ≤ load w
outstanding-load w i = omega (
  arith,
  length-append (returned w.result) (held w.running ++ (held w.slot ++ queued w.queue)),
  length-append (held w.running) (held w.slot ++ queued w.queue),
  length-append (held w.slot) (queued w.queue),
  length-returned w.result,
  length-held w.running,
  length-held w.slot,
  length-queued w.queue,
)

All-none : (P : Job → Type 0) (js : List Job) → length js ≤ 0 → All P js
All-none P [] h = tt
All-none P (j ∷ js) h = absurd (omega arith)

-- Nothing is left for an empty estimator to complete.
Estimating-empty : (w : Worker) → OneJob w → load w ≡ 0 → Estimating w none
Estimating-empty w i z = record {
  one_job = i;
  few = omega arith;
  idle = λ _. refl;
  jobs = λ _. All-none (Completes none) (outstanding w) (omega (arith, outstanding-load w i));
}

pub Estimating-next :
    (running : Option Batch) (w w' : Worker) (o : Option JobResult)
    → Collected w w'
    → w.result ≡ o
    → Estimating w running
    → NextBatch w' running o
Estimating-next running w w' none c e f = record {
  one_job = c.one_job;
  few = omega (arith, loads c e, f.few);
  idle = λ z. f.idle (omega (arith, loads c e));
  jobs = λ _. subst (All (Completes running)) (left c e) (f.jobs c.healthy);
}
Estimating-next running w w' (some r) c e f =
    let ((b, p, q), rest) = subst (All (Completes running)) (left c e) (f.jobs c.healthy) in
    (b, p, q, Estimating-empty w' c.one_job (omega (arith, loads c e, f.few)))

pub idle-load : (w : Worker) → idle w ≡ true → load w ≡ 0
idle-load w e = idle-parts w.busy w.queue e
  where
    idle-parts : (b : Bool) (js : List Job) → not b && empty js ≡ true → flag b + length js ≡ 0
    idle-parts b js e = ground arith

full-empty : (w : Worker) → load w ≡ 0 → full w ≡ false
full-empty w z = rw (queue_empty w z)
  where
    queue_empty : (w : Worker) → load w ≡ 0 → length w.queue ≡ 0
    queue_empty w z = omega arith

offer-load : (j : Job) (w : Worker) → load w ≡ 0 → load (offer j w).1 ≡ 1
unfolding offer
offer-load j w z = rw (full-empty w z) (omega (arith, length-append w.queue (j ∷ [])))

-- The estimator gets the batch that was selected for it.
pub Estimating-offer :
    (j : Job) (b : Batch) (w : Worker)
    → j.complete ≡ completes_batch b
    → idle w ≡ true
    → OneJob w
    → Estimating (offer j w).1 (some b)
Estimating-offer j b w e h i =
    let z = idle-load w h in
    record {
      one_job = offer-OneJob j w i;
      few = omega (arith, offer-load j w z);
      idle = λ k. absurd (omega (arith, offer-load j w z));
      jobs = λ _. subst (All (Completes (some b))) (sym (offer-outstanding j w)) (
          rw (full-empty w z) (
            All-append (Completes (some b)) (outstanding w) (unassigned j ∷ [])
              (All-none _ (outstanding w) (omega (arith, outstanding-load w i)))
              ((b, e, refl), tt)));
    }

pub Quiet-offer : (j : Job) (w : Worker) → IsQuiet j.complete → Quiet w → Quiet (offer j w).1
Quiet-offer j w q f =
    let (completions, error, accepts) = offer-keeps j w in
    record {
      one_job = offer-OneJob j w f.one_job;
      jobs = λ h.
          let jobs = f.jobs (sym error ∙ h) in
          subst (All (λ i. IsQuiet i.complete)) (sym (offer-outstanding j w))
            (elim (Bool-cases (full w)) [
              | inl b ↦ rw b jobs
              | inr b ↦ rw b (All-append _ (outstanding w) (unassigned j ∷ []) jobs (q, tt))
            ]);
    }

abbrev pub NextQuiet : Worker → Option JobResult → Type 0
NextQuiet w none = Quiet w
NextQuiet w (some r) = IsQuiet r.job.complete × Quiet w

pub Quiet-next :
    (w w' : Worker) (o : Option JobResult)
    → Collected w w'
    → w.result ≡ o
    → Quiet w
    → NextQuiet w' o
Quiet-next w w' none c e f = record {
  one_job = c.one_job;
  jobs = λ _. subst (All (λ i. IsQuiet i.complete)) (left c e) (f.jobs c.healthy);
}
Quiet-next w w' (some r) c e f =
    let (q, rest) = subst (All (λ i. IsQuiet i.complete)) (left c e) (f.jobs c.healthy) in
    (q, record { one_job = c.one_job; jobs = λ _. rest })
