-- ===== src/Worker/Order.antt =====
-- demo/dependent_workload.cpp, `Worker`: the jobs that it has accepted and not completed, in order.
pub mod Fifo
use scx_slam_fresh.Base.{
  ℕ, ◌+◌, ◌≤◌, ◌≡◌, refl, ◌∙◌, sym, ap, Bool, true, false, not, List, [], ◌∷◌, ◌++◌, append-nil,
  append_assoc, Option, none, some, ◌==◌, if◌then◌else◌, length, Result, ok, err, arith, Bool-cases,
  inl, inr, OnOk,
}
use mathlib.Core.List.{map}
use scx_slam_fresh.Worker.{
  Worker, Job, JobResult, offer, hand_over, dispatch, count_result, collect, finish_worker,
  take_slot, thread_wakes, post_result, thread_ends, thread_fails,
}
use scx_slam_fresh.Worker.Invariant.State.{holds, flag}

-- `dispatch` writes the time of the assignment, which is left out here.
abbrev pub unassigned : Job → Job
unassigned j = record j { assigned = 0 }

abbrev pub queued : List Job → List Job
queued [] = []
queued (j ∷ js) = unassigned j ∷ queued js

abbrev pub held : Option Job → List Job
held none = []
held (some j) = unassigned j ∷ []

abbrev pub returned : Option JobResult → List Job
returned none = []
returned (some d) = unassigned d.job ∷ []

-- Oldest first: the result, then the thread's job, then the slot, then the queue.
abbrev pub outstanding : Worker → List Job
outstanding w = returned w.result ++ (held w.running ++ (held w.slot ++ queued w.queue))

-- One place for one job at a time, and none without `busy`.
abbrev pub OneJob : Worker → Type 0
OneJob w = holds w.slot + holds w.running + holds w.result ≤ flag w.busy

queued-append :
    (js : List Job) (j : Job) → queued (js ++ (j ∷ [])) ≡ queued js ++ (unassigned j ∷ [])
queued-append [] j = refl
queued-append (k ∷ js) j = ap (λ r. unassigned k ∷ r) (queued-append js j)

-- The order is as before, still one job at a time, and no failure is forgotten.
pub record Keeps (w w' : Worker) : Type 0 where
  pub same : outstanding w' ≡ outstanding w
  pub one_job : OneJob w'
  pub completions : w'.completions ≡ w.completions
  pub blames : w'.error ≡ false → w.error ≡ false

abbrev pub full : Worker → Bool
full w = length w.queue == 32

pub offer-outstanding :
    (j : Job) (w : Worker)
    → outstanding (offer j w).1
      ≡ (if full w then outstanding w else outstanding w ++ (unassigned j ∷ []))
unfolding offer
offer-outstanding j w = elim (Bool-cases (length w.queue == 32)) [
  | inl e ↦ rw e
  | inr e ↦ rw (e, queued-append w.queue j) (simp append_assoc)
]

pub offer-keeps :
    (j : Job) (w : Worker)
    → ((offer j w).1.completions ≡ w.completions)
      × ((offer j w).1.error ≡ w.error)
      × ((offer j w).0 ≡ not (full w))
unfolding offer
offer-keeps j w = ground arith

pub offer-OneJob : (j : Job) (w : Worker) → OneJob w → OneJob (offer j w).1
unfolding offer
offer-OneJob j w o = ground arith

take_slot-Keeps :
    (o : Option Job) (w : Worker)
    → w.slot ≡ o
    → w.running ≡ none
    → OneJob w
    → Keeps w (take_slot o w)
unfolding take_slot
take_slot-Keeps o w e r i = ground arith

pub thread_wakes-Keeps : (w : Worker) → OneJob w → Keeps w (thread_wakes w)
unfolding thread_wakes
thread_wakes-Keeps w i = ground (arith, take_slot-Keeps w.slot w)

post_result-Keeps :
    (o : Option Job) (start end_ns used : ℕ) (w : Worker)
    → w.running ≡ o
    → OneJob w
    → Keeps w (post_result o start end_ns used w)
unfolding post_result
post_result-Keeps o start end_ns used w e i = ground arith

pub thread_ends-Keeps :
    (start end_ns used : ℕ) (w : Worker) → OneJob w → Keeps w (thread_ends start end_ns used w)
unfolding thread_ends
thread_ends-Keeps start end_ns used w i = post_result-Keeps w.running start end_ns used w refl i

pub thread_fails-OneJob : (w : Worker) → OneJob w → OneJob (thread_fails w)
unfolding thread_fails
thread_fails-OneJob w i = ground arith

pub finish_worker-Keeps :
    (publish_fails : Bool) (w : Worker) → OneJob w → Keeps w (finish_worker publish_fails w)
unfolding finish_worker
finish_worker-Keeps publish_fails w i = ground arith

hand_over-Keeps :
    (now : ℕ) (publish_fails : Bool) (js : List Job) (w : Worker)
    → w.queue ≡ js
    → w.busy ≡ false
    → OneJob w
    → OnOk (Keeps w) (hand_over now publish_fails js w)
unfolding hand_over
hand_over-Keeps now publish_fails js w e b i = ground arith

pub dispatch-Keeps :
    (now : ℕ) (publish_fails : Bool) (w : Worker)
    → OneJob w
    → OnOk (Keeps w) (dispatch now publish_fails w)
unfolding dispatch
dispatch-Keeps now publish_fails w i = ground (arith, hand_over-Keeps now publish_fails w.queue w)

pub count_result-outstanding :
    (o : Option JobResult) (w : Worker)
    → w.result ≡ o
    → OneJob w
    → OneJob (count_result o w) × (outstanding w ≡ returned o ++ outstanding (count_result o w))
unfolding count_result
count_result-outstanding o w e i = ground arith
