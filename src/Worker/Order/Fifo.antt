-- ===== src/Worker/Order/Fifo.antt =====
-- demo/dependent_workload.cpp, `Worker`: jobs complete in the order in which they were accepted.
use scx_slam_fresh.Base.{
  ℕ, ◌≡◌, refl, ◌∙◌, sym, ap, Bool, true, false, not, List, [], ◌∷◌, ◌++◌, append-nil, append_assoc,
  Option, none, some, if◌then◌else◌, Result, ok, err, arith, Bool-cases, inl, inr, OnOk,
}
use scx_slam_fresh.Worker.{
  Worker, Job, JobResult, WorkerAction, act, act_all, or_same, new_worker, WorkerError, offer,
  count_result, collect, thread_fails,
}
use scx_slam_fresh.Worker.Order.{
  unassigned, outstanding, OneJob, Keeps, full, offer-outstanding, offer-keeps, offer-OneJob,
  thread_wakes-Keeps, thread_ends-Keeps, thread_fails-OneJob, finish_worker-Keeps, dispatch-Keeps,
  count_result-outstanding,
}

abbrev pub ids : List Job → List ℕ
ids [] = []
ids (j ∷ js) = j.id ∷ ids js

-- The ids of the jobs that `offer` accepted.
abbrev pub accepted_of : WorkerAction → Worker → List ℕ
accepted_of (WorkerAction.offers j) w = if (offer j w).0 then j.id ∷ [] else []
accepted_of _ w = []

abbrev pub accepted : List WorkerAction → Worker → List ℕ
accepted [] w = []
accepted (a ∷ acts) w = accepted_of a w ++ accepted acts (act a w)

ids-append : (js ks : List Job) → ids (js ++ ks) ≡ ids js ++ ids ks
ids-append [] ks = refl
ids-append (j ∷ js) ks = ap (λ r. j.id ∷ r) (ids-append js ks)

-- The ids of the jobs accepted so far: those completed and those still to complete.
abbrev line : Worker → List ℕ
line w = w.completions ++ ids (outstanding w)

record Moves (a : WorkerAction) (w w' : Worker) : Type 0 where
  line_grows : w'.error ≡ false → line w' ≡ line w ++ accepted_of a w
  one_job : OneJob w'
  blames : w'.error ≡ false → w.error ≡ false

kept : (a : WorkerAction) (w w' : Worker) → accepted_of a w ≡ [] → Keeps w w' → Moves a w w'
kept a w w' e k = record {
  line_grows = λ _. rw (e, k.completions, k.same) (sym (append-nil _));
  one_job = k.one_job;
  blames = k.blames;
}

Keeps-refl : (w : Worker) → OneJob w → Keeps w w
Keeps-refl w i = record { same = refl; one_job = i; completions = refl; blames = λ e. e }

dispatch-or_same :
    (r : Result WorkerError Worker) (w : Worker)
    → OneJob w
    → OnOk (Keeps w) r
    → Keeps w (or_same w r)
unfolding or_same
dispatch-or_same (ok w') w i k = k
dispatch-or_same (err e) w i k = Keeps-refl w i

offer-line :
    (j : Job) (w : Worker) (b : Bool) (o : List Job) (a : List ℕ)
    → o ≡ (if b then outstanding w else outstanding w ++ (unassigned j ∷ []))
    → a ≡ (if not b then j.id ∷ [] else [])
    → w.completions ++ ids o ≡ line w ++ a
offer-line j w true o a p q = rw (p, q) (sym (append-nil _))
offer-line j w false o a p q =
    rw (p, q, ids-append (outstanding w) (unassigned j ∷ []))
      (sym (append_assoc w.completions (ids (outstanding w)) (j.id ∷ [])))

offer-Moves : (j : Job) (w : Worker) → OneJob w → Moves (WorkerAction.offers j) w (offer j w).1
offer-Moves j w i =
    let (completions, error, accepts) = offer-keeps j w in
    record {
      line_grows = λ _. rw completions (
          offer-line j w (full w) _ _ (offer-outstanding j w)
            (ap (λ b. if b then j.id ∷ [] else []) accepts));
      one_job = offer-OneJob j w i;
      blames = λ e. sym error ∙ e;
    }

collect-Moves :
    (o : Option JobResult) (w : Worker)
    → w.result ≡ o
    → OneJob w
    → Moves WorkerAction.collects w (count_result o w)
unfolding count_result
collect-Moves none w e i = kept _ w w refl (Keeps-refl w i)
collect-Moves (some d) w e i =
    let (one, order) = count_result-outstanding (some d) w e i in
    record {
      line_grows = λ _. simp (order, append_assoc, append-nil);
      one_job = one;
      blames = λ e. e;
    }

act-Moves : (a : WorkerAction) (w : Worker) → OneJob w → Moves a w (act a w)
unfolding act thread_fails collect or_same
act-Moves (WorkerAction.offers j) w i = offer-Moves j w i
act-Moves (WorkerAction.dispatches now publish_fails) w i =
    kept _ w _ refl (dispatch-or_same _ w i (dispatch-Keeps now publish_fails w i))
act-Moves WorkerAction.collects w i = elim (Bool-cases w.error) [
  | inl e ↦ simp e (kept _ w w refl (Keeps-refl w i))
  | inr e ↦ simp e (collect-Moves w.result w refl i)
]
act-Moves (WorkerAction.finishes publish_fails) w i =
    kept _ w _ refl (finish_worker-Keeps publish_fails w i)
act-Moves WorkerAction.wakes w i = kept _ w _ refl (thread_wakes-Keeps w i)
act-Moves (WorkerAction.ends start end_ns used) w i =
    kept _ w _ refl (thread_ends-Keeps start end_ns used w i)
act-Moves WorkerAction.fails w i = record {
  line_grows = λ e. cc;
  one_job = thread_fails-OneJob w i;
  blames = λ e. cc;
}

act_all-blames :
    (acts : List WorkerAction) (w : Worker)
    → OneJob w
    → (act_all acts w).error ≡ false
    → w.error ≡ false
unfolding act_all
act_all-blames [] w i e = e
act_all-blames (a ∷ acts) w i e =
    let m = act-Moves a w i in m.blames (act_all-blames acts (act a w) m.one_job e)

act_all-line :
    (acts : List WorkerAction) (w : Worker)
    → OneJob w
    → (act_all acts w).error ≡ false
    → line (act_all acts w) ≡ line w ++ accepted acts w
unfolding act_all
act_all-line [] w i e = sym (append-nil _)
act_all-line (a ∷ acts) w i e =
    let m = act-Moves a w i in
    act_all-line acts (act a w) m.one_job e
    ∙ ap (λ l. l ++ accepted acts (act a w)) (m.line_grows (act_all-blames acts _ m.one_job e))
    ∙ append_assoc (line w) _ _

-- Unless the worker has failed: the jobs that a new worker has completed, in the order of their
-- completions, followed by those in its hands, the oldest first, and by its queue, are exactly the
-- jobs that `offer` accepted, in that order.
pub completes_in_order :
    (qos : Bool) (acts : List WorkerAction)
    → let w = act_all acts (new_worker qos) in
      w.error ≡ false → w.completions ++ ids (outstanding w) ≡ accepted acts (new_worker qos)
completes_in_order qos acts e =
    act_all-line acts (new_worker qos) (unfold new_worker in omega arith) e
    ∙ unfold new_worker in refl
