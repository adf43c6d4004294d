-- ===== src/Worker/Invariant/Calls.antt =====
-- demo/dependent_workload.cpp, `Worker`: `offer`, `dispatch` and `collect` against the invariant.
use scx_slam_fresh.Base.{
  ◌==◌, ◌&&◌, not, has_value, ◌≡◌, refl, ap, ℕ, suc, ◌+◌, ◌<◌, Bool, false, List, [], ◌∷◌, Option,
  some, none, inl, inr, length, arith, ◌^◌, length-append, Bool-cases,
}
use scx_slam_fresh.Worker.Invariant.State.{Inv}
use scx_slam_fresh.Worker.{
  Worker, offer, Job, count_result, dispatch, finish_worker, hand_over, JobResult, or_same,
}

pub offer-Inv :
    (n : ℕ) (j : Job) (w : Worker) → n + 1 < 2 ^ 64 → Inv n w → Inv (n + 1) (offer j w).1
unfolding offer
offer-Inv n j w small i =
    let l = length-append w.queue (j ∷ []) in
    let s = i.slot_hinted in
    let r = i.running_hinted in
    elim (Bool-cases (length w.queue == 32)) [
      | inl k ↦ simp k (record {
        one_job = i.one_job;
        at_most = i.at_most;
        conserved = ground arith;
        short = i.short;
        few = ground arith;
        late_completed = i.late_completed;
        all_completed = i.all_completed;
        running_inside = ground arith;
        slot_hinted = s;
        running_hinted = r;
      })
      | inr k ↦ simp k (record {
        one_job = i.one_job;
        at_most = i.at_most;
        conserved = ground arith;
        short = ground arith;
        few = ground arith;
        late_completed = i.late_completed;
        all_completed = i.all_completed;
        running_inside = ground arith;
        slot_hinted = s;
        running_hinted = r;
      })
    ]

pub later-Inv : (n : ℕ) (w : Worker) → Inv n w → Inv (n + 1) w
later-Inv n w i = record {
  one_job = i.one_job;
  at_most = i.at_most;
  conserved = i.conserved;
  short = i.short;
  few = (let f = i.few in omega arith);
  late_completed = i.late_completed;
  all_completed = i.all_completed;
  running_inside = ground arith;
  slot_hinted = i.slot_hinted;
  running_hinted = i.running_hinted;
}

hand_over-Inv :
    (n now : ℕ) (publish_fails : Bool) (js : List Job) (w : Worker)
    → w.queue ≡ js
    → w.busy ≡ false
    → Inv n w
    → Inv n (or_same w (hand_over now publish_fails js w))
unfolding hand_over or_same
hand_over-Inv n now publish_fails [] w e b i = i
hand_over-Inv n now publish_fails (j ∷ js) w e b i =
    let i1 = i.one_job in
    let i2 = i.at_most in
    let i3 = i.conserved in
    let i8 = i.slot_hinted in
    let i9 = i.running_hinted in
    let l : length w.queue ≡ suc (length js) = ap length e in
    elim (Bool-cases (w.qos && publish_fails)) [
      | inl k ↦ simp k i
      | inr k ↦ simp k (record {
        one_job = λ q. ground arith;
        at_most = ground arith;
        conserved = ground arith;
        short = ground arith;
        few = ground arith;
        late_completed = ground arith;
        all_completed = ground arith;
        running_inside = ground arith;
        slot_hinted = λ x q z r. ground arith;
        running_hinted = λ x q r. ground arith;
      })
    ]

pub dispatch-Inv :
    (n now : ℕ) (publish_fails : Bool) (w : Worker)
    → Inv n w
    → Inv n (or_same w (dispatch now publish_fails w))
unfolding dispatch
dispatch-Inv n now publish_fails w i = elim (Bool-cases w.error) [
  | inl k ↦ simp k (unfold or_same in i)
  | inr k ↦ elim (Bool-cases w.busy) [
    | inl b ↦ simp (k, b) (unfold or_same in i)
    | inr b ↦ simp (k, b) (hand_over-Inv n now publish_fails w.queue w refl b i)
  ]
]

pub count_result-Inv :
    (n : ℕ) (o : Option JobResult) (w : Worker)
    → n + 1 < 2 ^ 64
    → w.result ≡ o
    → Inv n w
    → Inv n (count_result o w)
unfolding count_result
count_result-Inv n none w small e i = i
count_result-Inv n (some d) w small e i =
    let i1 = i.one_job in
    let i2 = i.at_most in
    let i3 = i.conserved in
    let i8 = i.slot_hinted in
    let i9 = i.running_hinted in
    let l = length-append w.completions (d.job.id ∷ []) in
    record {
      one_job = λ q. ground arith;
      at_most = ground arith;
      conserved = ground arith;
      short = ground arith;
      few = ground arith;
      late_completed = ground arith;
      all_completed = ground arith;
      running_inside = ground arith;
      slot_hinted = λ x q z r. ground arith;
      running_hinted = λ x q r. ground arith;
    }

pub finish-Inv :
    (n : ℕ) (publish_fails : Bool) (w : Worker) → Inv n w → Inv n (finish_worker publish_fails w)
unfolding finish_worker
finish-Inv n publish_fails w i =
    let i2 = i.at_most in
    elim (Bool-cases (
      w.qos
      && (not w.busy && (not (has_value w.slot) && (not (has_value w.result) && not w.error))))) [
        | inr k ↦ simp k (record {
          one_job = i.one_job;
          at_most = i.at_most;
          conserved = i.conserved;
          short = i.short;
          few = i.few;
          late_completed = i.late_completed;
          all_completed = i.all_completed;
          running_inside = ground arith;
          slot_hinted = i.slot_hinted;
          running_hinted = i.running_hinted;
        })
        | inl k ↦ elim (Bool-cases publish_fails) [
          | inl p ↦
              simp (k, p)
                (record {
                  one_job = λ q. ground arith;
                  at_most = i.at_most;
                  conserved = i.conserved;
                  short = i.short;
                  few = i.few;
                  late_completed = i.late_completed;
                  all_completed = i.all_completed;
                  running_inside = ground arith;
                  slot_hinted = i.slot_hinted;
                  running_hinted = i.running_hinted;
                })
          | inr p ↦
              simp (k, p)
                (record {
                  one_job = i.one_job;
                  at_most = i.at_most;
                  conserved = i.conserved;
                  short = i.short;
                  few = i.few;
                  late_completed = i.late_completed;
                  all_completed = i.all_completed;
                  running_inside = ground arith;
                  slot_hinted = λ x q z r. ground arith;
                  running_hinted = λ x q r. ground arith;
                })
        ]
      ]
