-- ===== src/Worker/Invariant/Thread.antt =====
-- demo/dependent_workload.cpp, `Worker`: the moves of its thread against the invariant.
use mathlib.Core.Option.{some-injective}
use scx_slam_fresh.Base.{
  ◌||◌, has_value, ◌≡◌, refl, ap, ◌∙◌, false, ℕ, Option, some, none, inl, inr, arith, Bool-cases,
}
use scx_slam_fresh.Worker.Invariant.State.{Inv}
use scx_slam_fresh.Worker.{Worker, Job, post_result, take_slot, thread_fails, thread_wakes}

take_slot-Inv :
    (n : ℕ) (o : Option Job) (w : Worker)
    → w.slot ≡ o
    → w.running ≡ none
    → w.exited ≡ false
    → Inv n w
    → Inv n (take_slot o w)
unfolding take_slot
take_slot-Inv n none w e r x i = i
take_slot-Inv n (some j) w e r z i =
    let i1 = i.one_job in
    let i2 = i.at_most in
    let i3 = i.conserved in
    let i8 = i.slot_hinted in
    let i9 = i.running_hinted in
    record {
      one_job = λ q. ground arith;
      at_most = ground arith;
      conserved = ground arith;
      short = ground arith;
      few = ground arith;
      late_completed = ground arith;
      all_completed = ground arith;
      running_inside = ground arith;
      slot_hinted = λ x q z r. ground arith;
      running_hinted =
          λ x q r. i8 j q z e ∙ ap (λ o. some o) (ap (λ y. y.id) (some-injective _ _ r));
    }

pub wakes-Inv : (n : ℕ) (w : Worker) → Inv n w → Inv n (thread_wakes w)
unfolding thread_wakes
wakes-Inv n w i = elim (Bool-cases (w.exited || has_value w.running)) [
  | inl k ↦ simp k i
  | inr k ↦ elim (Bool-cases w.stopping) [
    | inl b ↦
        simp (k, b)
          (record {
            one_job = i.one_job;
            at_most = i.at_most;
            conserved = i.conserved;
            short = i.short;
            few = i.few;
            late_completed = i.late_completed;
            all_completed = i.all_completed;
            running_inside = λ h. ground arith;
            slot_hinted = λ j q z r. absurd (ground arith);
            running_hinted = λ j q r. absurd (ground arith);
          })
    | inr b ↦
        let r : w.running ≡ none = (ground arith) in
        let x : w.exited ≡ false = (ground arith) in
        simp (k, b) (take_slot-Inv n w.slot w refl r x i)
  ]
]

pub post_result-Inv :
    (n start end_ns used : ℕ) (o : Option Job) (w : Worker)
    → w.running ≡ o
    → Inv n w
    → Inv n (post_result o start end_ns used w)
unfolding post_result
post_result-Inv n start end_ns used none w e i = i
post_result-Inv n start end_ns used (some j) w e i =
    let i1 = i.one_job in
    let i2 = i.at_most in
    let i3 = i.conserved in
    let i8 = i.slot_hinted in
    let i9 = i.running_hinted in
    record {
      one_job = λ q. ground arith;
      at_most = ground arith;
      conserved = ground arith;
      short = ground arith;
      few = ground arith;
      late_completed = ground arith;
      all_completed = ground arith;
      running_inside = ground arith;
      slot_hinted = λ x q z r. ground arith;
      running_hinted = λ x q r. ground arith;
    }

pub fails-Inv : (n : ℕ) (w : Worker) → Inv n w → Inv n (thread_fails w)
unfolding thread_fails
fails-Inv n w i =
    let i1 = i.one_job in
    let i2 = i.at_most in
    let i3 = i.conserved in
    let i8 = i.slot_hinted in
    let i9 = i.running_hinted in
    record {
      one_job = λ q. ground arith;
      at_most = ground arith;
      conserved = ground arith;
      short = ground arith;
      few = ground arith;
      late_completed = ground arith;
      all_completed = ground arith;
      running_inside = ground arith;
      slot_hinted = λ j q z r. absurd (ground arith);
      running_hinted = λ x q r. ground arith;
    }
