-- ===== src/Dispatcher/Safety/Jobs.antt =====
-- demo/dependent_workload.cpp, the jobs that offer measurements: what the next completion is.
use scx_slam_fresh.Base.{
  ℕ, ◌==◌, u64, add64, ◌*◌, ◌^◌, ◌+◌, ◌≤◌, ◌<◌, ◌≡◌, refl, ◌∙◌, sym, subst, ap, List, [], ◌∷◌, ◌++◌,
  Option, none, some, value_or, length, length-append, arith, Bool-cases, inl, inr,
}
use scx_slam_fresh.Graph.{Stream, Measurement}
use scx_slam_fresh.Graph.Returns.{Note}
use scx_slam_fresh.Worker.{Worker, Job, JobResult, offers_measurement, offer}
use scx_slam_fresh.Worker.Order.{
  unassigned, returned, outstanding, full, offer-outstanding, offer-keeps, offer-OneJob,
}
use scx_slam_fresh.Dispatcher.{period, Source}
use scx_slam_fresh.Dispatcher.Safety.State.{Feed, Feeding, load}
use scx_slam_fresh.Dispatcher.Safety.Workers.{Collected, one_more}

-- The measurement that the next completion offers, and the accounts after the graph has it.
abbrev pub NextFeed : ℕ → Stream → Worker → Source → Note → ℕ → Option JobResult → Type 0
NextFeed begin s w source note t none = Feeding begin s w source note t
NextFeed begin s w source note t (some r) =
    (m : Measurement) × (r.job.complete ≡ offers_measurement m)
    × (m.stream ≡ s)
    × (value_or note.0 0 < m.sequence)
    × (m.source_time ≤ t)
    × Feeding begin s w source (some m.sequence, u64 (note.1 + 1)) t

pub left :
    {w w' : Worker} {o : Option JobResult}
    → Collected w w'
    → w.result ≡ o
    → outstanding w ≡ returned o ++ outstanding w'
left {w' = w'} c e = c.jobs_left ∙ ap (λ r. returned r ++ outstanding w') e

pub completes :
    {w w' : Worker} {o : Option JobResult}
    → Collected w w'
    → w.result ≡ o
    → w'.completed ≡ one_more o w.completed
completes {w = w} c e = c.counts_left.2 ∙ ap (λ r. one_more r w.completed) e

pub loads :
    {w w' : Worker} {o : Option JobResult}
    → Collected w w'
    → w.result ≡ o
    → load w ≡ length (returned o) + load w'
loads {w' = w'} c e = c.load_left ∙ ap (λ r. length (returned r) + load w') e

pub Feed-next :
    (begin : ℕ) (s : Stream) (source : Source) (note : Note) (t : ℕ) (w w' : Worker)
    (o : Option JobResult)
    → source.next < 2 ^ 64
    → Collected w w'
    → w.result ≡ o
    → Feeding begin s w source note t
    → NextFeed begin s w' source note t o
Feed-next begin s source note t w w' none wide c e f = record {
  one_job = c.one_job;
  jobs = λ _. subst (Feed s (value_or note.0 0) source.produced t) (left c e) (f.jobs c.healthy);
  counted = f.counted;
  offered = c.counts_left.0 ∙ f.offered;
  settled = omega (arith, c.counts_left, completes c e, loads c e, f.settled);
  handed = f.handed ∙ sym (completes c e);
  paced = f.paced;
}
Feed-next begin s source note t w w' (some r) wide c e f =
    let (m, e', q, a, b, rest) =
      subst (Feed s (value_or note.0 0) source.produced t) (left c e) (f.jobs c.healthy) in
    (
      m,
      e',
      q,
      a,
      b,
      record {
        one_job = c.one_job;
        jobs = λ _. rest;
        counted = f.counted;
        offered = c.counts_left.0 ∙ f.offered;
        settled = omega (arith, c.counts_left, completes c e, loads c e, f.settled, f.counted);
        handed = ap (λ n. add64 n 1) f.handed ∙ sym (completes c e);
        paced = f.paced;
      },
    )

Feed-raise :
    (s : Stream) (low high high' t t' : ℕ) (js : List Job)
    → high ≤ high'
    → t ≤ t'
    → Feed s low high t js
    → Feed s low high' t' js
Feed-raise s low high high' t t' [] h k f = omega arith
Feed-raise s low high high' t t' (j ∷ js) h k (m, e, q, a, b, f) =
    (m, e, q, a, omega arith, Feed-raise s m.sequence high high' t t' js h k f)

Feed-append :
    (s : Stream) (low high t : ℕ) (js : List Job) (j : Job) (m : Measurement)
    → j.complete ≡ offers_measurement m
    → m.stream ≡ s
    → high < m.sequence
    → m.source_time ≤ t
    → Feed s low high t js
    → Feed s low m.sequence t (js ++ (j ∷ []))
Feed-append s low high t [] j m e q h k f = (m, e, q, omega arith, k, omega arith)
Feed-append s low high t (i ∷ js) j m e q h k (n, e', q', a, b, f) =
    (n, e', q', a, b, Feed-append s n.sequence high t js j m e q h k f)

offer-counts :
    (j : Job) (w : Worker)
    → w.dropped + 1 < 2 ^ 64
    → ((offer j w).1.offered ≡ add64 w.offered 1)
      × ((offer j w).1.completed ≡ w.completed)
      × ((offer j w).1.dropped + load (offer j w).1 ≡ w.dropped + load w + 1)
unfolding offer
offer-counts j w h = elim (Bool-cases (length w.queue == 32)) [
  | inl e ↦ rw e (refl, refl, omega arith)
  | inr e ↦ rw e (refl, refl, omega (arith, length-append w.queue (j ∷ [])))
]

-- One more measurement, from a time that the source has reached.
pub Feeding-offer :
    (begin : ℕ) (s : Stream) (w : Worker) (source : Source) (note : Note) (t : ℕ) (j : Job)
    (m : Measurement) (next : ℕ)
    → j.complete ≡ offers_measurement m
    → m.stream ≡ s
    → m.sequence ≡ source.produced + 1
    → m.source_time ≤ t
    → m.sequence ≤ next
    → next < 2 ^ 64
    → next ≡ begin + m.sequence * period s
    → Feeding begin s w source note t
    → Feeding begin s (offer j w).1 (record { next = next; produced = m.sequence }) note t
Feeding-offer begin s w source note t j m next e q n k small wide pace f =
    let (completions, error, accepts) = offer-keeps j w in
    let (o, c, d) = offer-counts j w (omega (arith, f.settled)) in
    record {
      one_job = offer-OneJob j w f.one_job;
      counted = small;
      offered = omega (arith, o, f.offered);
      settled = omega (arith, c, d, f.settled);
      handed = f.handed ∙ sym c;
      paced = pace;
      jobs = λ h.
          let feed = f.jobs (sym error ∙ h) in
          subst (Feed s (value_or note.0 0) m.sequence t) (sym (offer-outstanding j w))
            (elim (Bool-cases (full w)) [
              | inl b ↦
                  rw b (Feed-raise s _ _ _ t t (outstanding w) (omega arith) (omega arith) feed)
              | inr b ↦
                  rw b
                    (Feed-append s _ _ t (outstanding w) (unassigned j) m e q (omega arith) k feed)
            ]);
    }

pub Feeding-later :
    (begin : ℕ) (s : Stream) (w : Worker) (source : Source) (note : Note) (t t' : ℕ)
    → t ≤ t'
    → Feeding begin s w source note t
    → Feeding begin s w source note t'
Feeding-later begin s w source note t t' k f = record {
  one_job = f.one_job;
  counted = f.counted;
  offered = f.offered;
  settled = f.settled;
  handed = f.handed;
  paced = f.paced;
  jobs = λ e. Feed-raise s _ _ _ t t' (outstanding w) (omega arith) k (f.jobs e);
}
