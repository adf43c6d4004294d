-- ===== src/Demo/Window/Bounds.antt =====
-- demo/window_metrics.h, `CpuWindowBounds`: the bounds hold, and the measuring loop ends.
use mathlib.Core.Option.{some-injective}
use scx_slam_fresh.Base.{
  ◌≤◌, ◌<◌, ◌-◌, ◌+◌, min, ◌==◌, inl, inr, [], ◌∷◌, ℕ, List, ◌^◌, ◌≡◌, true, sub64, sub64-sub,
  arith, Bool-cases, some, ltb, subst, ap, sym, ◌∙◌, ◌≢◌, mul64, add64, false, Option-cases, ◌⊎◌,
}
use scx_slam_fresh.Demo.Window.{
  CpuWindowBounds, Reading, sample, sample_loop, finish, measured_work_us, open_bounds,
  WindowStageStats, Measured, accounted, account,
}

-- The readings are taken one after the other, each between its two looks at the wall clock.
abbrev pub InOrder : ℕ → List Reading → Type 0
InOrder t [] = Unit
InOrder t (r ∷ rs) =
    (t ≤ r.instant) × (r.before ≤ r.instant) × (r.instant ≤ r.after) × InOrder r.instant rs

abbrev pub Monotone : (ℕ → ℕ) → Type 0
Monotone cpu_at = (s t : ℕ) → s ≤ t → cpu_at s ≤ cpu_at t

abbrev pub Word64 : (ℕ → ℕ) → Type 0
Word64 cpu_at = (t : ℕ) → cpu_at t < 2 ^ 64

-- Bounds taken up to an instant: what was used by the cutoff is bracketed, or the upper end is open.
record Brackets (cpu_at : ℕ → ℕ) (start now : ℕ) (b : CpuWindowBounds) : Type 0 where
  below : start + b.lower_ns ≤ cpu_at now
  below_cutoff : b.lower_ns ≤ cpu_at b.cutoff_ns - start
  above :
      b.closed ≡ true
      → (cpu_at b.cutoff_ns - start ≤ b.upper_ns) × (start + b.upper_ns ≤ cpu_at now)

module _ (cpu_at : ℕ → ℕ) (mono : Monotone cpu_at) (word : Word64 cpu_at) where
  sample-Brackets :
      (start now : ℕ) (b : CpuWindowBounds) (r : Reading)
      → Brackets cpu_at start now b
      → start ≤ cpu_at now
      → (now ≤ r.instant) × (r.before ≤ r.instant) × (r.instant ≤ r.after)
      → Brackets cpu_at start r.instant (sample (sub64 (cpu_at r.instant) start) r.before r.after b)
  unfolding sample
  sample-Brackets start now b r i s t =
      let later = mono now r.instant t.0 in
      let e = sub64-sub (cpu_at r.instant) start (omega arith) (word r.instant) in
      let j0 = i.below in
      let j1 = i.below_cutoff in
      let j2 = i.above in
      elim (Bool-cases b.closed) [
        | inl c ↦ simp c (record {
          below = omega arith;
          below_cutoff = j1;
          above = λ q. (let a = j2 c in ((a.0), omega arith));
        })
        | inr c ↦
            let up : b.cutoff_ns ≤ r.before → cpu_at b.cutoff_ns ≤ cpu_at r.instant =
              (λ h. mono b.cutoff_ns r.instant (omega arith)) in
            let down : r.after ≤ b.cutoff_ns → cpu_at r.instant ≤ cpu_at b.cutoff_ns =
              (λ h. mono r.instant b.cutoff_ns (omega arith)) in
            record { below = ground arith; below_cutoff = ground arith; above = λ q. ground arith }
      ]

  -- Where the loop ends, its last reading showed the work done.
  record LoopEnd (start cutoff work_ns elapsed : ℕ) (b : CpuWindowBounds) : Type 0 where
    last : ℕ
    done : work_ns ≤ elapsed
    from_start : start ≤ cpu_at last
    is_elapsed : elapsed ≡ cpu_at last - start
    same_cutoff : b.cutoff_ns ≡ cutoff
    brackets : Brackets cpu_at start last b

  sample_cutoff : (c s t : ℕ) (b : CpuWindowBounds) → (sample c s t b).cutoff_ns ≡ b.cutoff_ns
  unfolding sample
  sample_cutoff c s t b = ground arith

  sample_loop-LoopEnd :
      (start work_ns now elapsed : ℕ) (b b' : CpuWindowBounds) (rs : List Reading)
      → sample_loop cpu_at start work_ns b rs ≡ some (elapsed, b')
      → InOrder now rs
      → start ≤ cpu_at now
      → Brackets cpu_at start now b
      → LoopEnd start b.cutoff_ns work_ns elapsed b'
  unfolding sample_loop
  sample_loop-LoopEnd start work_ns now elapsed b b' [] h o s i = ground arith
  sample_loop-LoopEnd start work_ns now elapsed b b' (r ∷ rs) h o s i =
      let e = sub64 (cpu_at r.instant) start in
      let b1 = sample e r.before r.after b in
      let later = mono now r.instant o.0 in
      let s1 : start ≤ cpu_at r.instant = omega arith in
      let i1 = sample-Brackets start now b r i s (o.0, o.1, o.2) in
      let same = sample_cutoff e r.before r.after b in
      elim (Bool-cases (ltb e work_ns)) [
        | inl k ↦
            subst (λ c. LoopEnd start c work_ns elapsed b') same
              (sample_loop-LoopEnd start work_ns r.instant elapsed b1 b' rs (simp k at h) o.3 s1 i1)
        | inr k ↦
            let p = some-injective _ _ (simp k at h) in
            let pe : e ≡ elapsed = ap (λ x. x.0) p in
            let pb : b1 ≡ b' = ap (λ x. x.1) p in
            record {
              last = r.instant;
              done = ground arith;
              from_start = s1;
              is_elapsed = (sym pe ∙ sub64-sub (cpu_at r.instant) start s1 (word r.instant));
              same_cutoff = ap (λ x. x.cutoff_ns) (sym pb) ∙ same;
              brackets = subst (λ x. Brackets cpu_at start r.instant x) pb i1;
            }
      ]

  first-Brackets :
      (cutoff : ℕ) (r : Reading)
      → (r.before ≤ r.instant) × (r.instant ≤ r.after)
      → let start = cpu_at r.instant in
        Brackets cpu_at start r.instant (sample 0 r.before r.after (open_bounds cutoff))
  unfolding sample open_bounds
  first-Brackets cutoff r o =
      let up : cutoff ≤ r.before → cpu_at cutoff ≤ cpu_at r.instant =
        (λ h. mono cutoff r.instant (omega arith)) in
      record { below = ground arith; below_cutoff = ground arith; above = λ q. ground arith }

  -- The bounds when the computation is over.
  finish_brackets :
      (start cutoff work_ns elapsed : ℕ) (b : CpuWindowBounds)
      → LoopEnd start cutoff work_ns elapsed b
      → let b1 = finish elapsed b in
        let used = min (cpu_at cutoff) (start + elapsed) - start in
        (b1.lower_ns ≤ used) × (used ≤ b1.upper_ns) × (b1.upper_ns ≤ elapsed)
  unfolding finish
  finish_brackets start cutoff work_ns elapsed b l =
      let i = l.brackets in
      let j0 = i.below in
      let j1 : b.lower_ns ≤ cpu_at cutoff - start =
        subst (λ c. b.lower_ns ≤ cpu_at c - start) l.same_cutoff i.below_cutoff in
      let j2 : b.closed ≡ true
          → (cpu_at cutoff - start ≤ b.upper_ns) × (start + b.upper_ns ≤ cpu_at l.last) =
        subst
          (λ c.
            b.closed ≡ true
            → (cpu_at c - start ≤ b.upper_ns) × (start + b.upper_ns ≤ cpu_at l.last))
          l.same_cutoff i.above in
      let e = l.is_elapsed in let f = l.from_start in ground arith

-- With the instrumentation on, let the thread's CPU clock never run backwards and stay a word, and
-- let the readings be taken one after the other, each CPU reading between its two looks at the wall
-- clock. If the call returns, at least the asked-for CPU time passed; and of the CPU time of the
-- computation, the part used up to the end of the window is at least what `cpu_ns` grows by, and
-- exceeds that at most by what `cpu_uncertainty_ns` grows by (both counters wrap); the two growths
-- together are no more than the computation's CPU time, which is a word.
pub measured_work_brackets :
    (cpu_at : ℕ → ℕ) (cutoff us : ℕ) (w : WindowStageStats) (r : Reading) (rs : List Reading)
    (m : Measured)
    → Monotone cpu_at
    → Word64 cpu_at
    → cutoff ≢ 0
    → InOrder 0 (r ∷ rs)
    → measured_work_us cpu_at cutoff us w (r ∷ rs) ≡ some m
    → let start = cpu_at r.instant in
      let used = min (cpu_at cutoff) (start + m.elapsed) - start in
      (mul64 us 1000 ≤ m.elapsed)
      × ((sure : ℕ) × (unsure : ℕ) × (m.window.cpu_ns ≡ add64 w.cpu_ns sure)
          × (m.window.cpu_uncertainty_ns ≡ add64 w.cpu_uncertainty_ns unsure)
          × (sure ≤ used)
          × (used ≤ sure + unsure)
          × (sure + unsure ≤ m.elapsed))
      × (m.elapsed < 2 ^ 64)
unfolding measured_work_us accounted account
measured_work_brackets cpu_at cutoff us w r rs m mono word on o h =
    let start = cpu_at r.instant in
    let off : (cutoff == 0) ≡ false = ground arith in
    let first = sample 0 r.before r.after (open_bounds cutoff) in
    elim (Option-cases (sample_loop cpu_at start (mul64 us 1000) first rs)) [
      | inl k ↦ (let c = simp (off, k) at h in ground arith)
      | inr k ↦
          let same : first.cutoff_ns ≡ cutoff =
            (unfold open_bounds in
              sample_cutoff cpu_at mono word 0 r.before r.after (open_bounds cutoff)) in
          let l =
            sample_loop-LoopEnd cpu_at mono word start (mul64 us 1000) r.instant k.0.0 first k.0.1
              rs k.1 o.3 (omega arith) (first-Brackets cpu_at mono word cutoff r (o.1, o.2)) in
          let f =
            finish_brackets cpu_at mono word start cutoff (mul64 us 1000) k.0.0 k.0.1
              (subst (λ c. LoopEnd cpu_at mono word start c (mul64 us 1000) k.0.0 k.0.1) same l) in
          let e = some-injective _ _ (simp (off, k.1) at h) in
          let b1 = finish k.0.0 k.0.1 in
          let d = l.done in
          let short = l.is_elapsed in
          let small = word l.last in
          let diff = sub64-sub b1.upper_ns b1.lower_ns (omega arith) (omega arith) in
          rw (sym (ap (λ x. x.elapsed) e)) (
            d,
            (
              b1.lower_ns,
              sub64 b1.upper_ns b1.lower_ns,
              sym (ap (λ x. x.window.cpu_ns) e),
              sym (ap (λ x. x.window.cpu_uncertainty_ns) e),
              f.0,
              omega arith,
              omega arith,
            ),
            omega arith,
          )
    ]

-- Some reading after the first shows the asked-for CPU time.
abbrev pub Suffices : (ℕ → ℕ) → ℕ → ℕ → List Reading → Type 0
Suffices cpu_at start work_ns [] = ⊥
Suffices cpu_at start work_ns (r ∷ rs) =
    (work_ns ≤ sub64 (cpu_at r.instant) start) ⊎ Suffices cpu_at start work_ns rs

sample_loop_ends :
    (cpu_at : ℕ → ℕ) (start work_ns : ℕ) (b : CpuWindowBounds) (rs : List Reading)
    → Suffices cpu_at start work_ns rs
    → (p : ℕ × CpuWindowBounds) × (sample_loop cpu_at start work_ns b rs ≡ some p)
unfolding sample_loop
sample_loop_ends cpu_at start work_ns b [] h = elim h [ ]
sample_loop_ends cpu_at start work_ns b (r ∷ rs) h =
    let e = sub64 (cpu_at r.instant) start in
    elim (Bool-cases (ltb e work_ns)) [
      | inr k ↦ ((e, sample e r.before r.after b), simp k)
      | inl k ↦ elim h [
        | inl g ↦ ground arith
        | inr g ↦
            let i = sample_loop_ends cpu_at start work_ns (sample e r.before r.after b) rs g in
            (i.0, simp (k, i.1))
      ]
    ]

-- With the instrumentation on, the loop ends as soon as a reading shows the asked-for CPU time: if
-- some reading after the first does, the call returns.
pub measured_work_ends :
    (cpu_at : ℕ → ℕ) (cutoff us : ℕ) (w : WindowStageStats) (r : Reading) (rs : List Reading)
    → cutoff ≢ 0
    → Suffices cpu_at (cpu_at r.instant) (mul64 us 1000) rs
    → (m : Measured) × (measured_work_us cpu_at cutoff us w (r ∷ rs) ≡ some m)
unfolding measured_work_us accounted
measured_work_ends cpu_at cutoff us w r rs on h =
    let off : (cutoff == 0) ≡ false = ground arith in
    let i =
      sample_loop_ends cpu_at (cpu_at r.instant) (mul64 us 1000)
        (sample 0 r.before r.after (open_bounds cutoff)) rs h in
    (account w i.0, simp (off, i.1))
