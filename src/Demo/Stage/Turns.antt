-- ===== src/Demo/Stage/Turns.antt =====
-- demo/slam_pipeline_demo.cpp, `stage_worker`: what one turn does, case by case.
use mathlib.Core.Option.{some-injective}
use scx_slam_fresh.Base.{
  ◌&&◌, ℕ, ◌≤◌, ◌==◌, inl, inr, [], ◌∷◌, none, some, List, Option, ◌≡◌, Bool-cases, arith, true,
  subst, refl, Bool, ◌++◌, Option-cases, sym, false,
}
use scx_slam_fresh.Demo.Stage.{
  StageStats, note_drop, note_work, work, note_start, note_end, Turn, handle, run_turns, Handled,
  Stage, ended, send, to_list, after_turn,
}
use scx_slam_fresh.Demo.Window.{
  WindowStageStats, accounted, measured_work_us, unmeasured, account, CpuWindowBounds, Measured,
  Reading,
}
use scx_slam_fresh.Demo.{inside_window, WorkItem, StageCfg, is_stale, deadline_abs}

-- The measured work leaves the counts of the window alone.
abbrev pub SameCounts : WindowStageStats → WindowStageStats → Type 0
SameCounts w v =
    (v.started ≡ w.started)
    × (v.completed ≡ w.completed)
    × (v.late ≡ w.late)
    × (v.stale_seen ≡ w.stale_seen)
    × (v.dropped_stale ≡ w.dropped_stale)

accounted-SameCounts :
    (w : WindowStageStats) (o : Option (ℕ × CpuWindowBounds)) (m : Measured)
    → accounted w o ≡ some m
    → SameCounts w m.window
unfolding accounted account
accounted-SameCounts w none m h = ground arith
accounted-SameCounts w (some p) m h =
    subst (λ x. SameCounts w x.window) (some-injective _ _ h) (refl, refl, refl, refl, refl)

unmeasured-SameCounts :
    (cpu_at : ℕ → ℕ) (start : ℕ) (w : WindowStageStats) (o : Option (List Reading)) (m : Measured)
    → unmeasured cpu_at start w o ≡ some m
    → SameCounts w m.window
unfolding unmeasured
unmeasured-SameCounts cpu_at start w none m h = ground arith
unmeasured-SameCounts cpu_at start w (some []) m h = ground arith
unmeasured-SameCounts cpu_at start w (some (r ∷ rs)) m h =
    subst (λ x. SameCounts w x.window) (some-injective _ _ h) (refl, refl, refl, refl, refl)

pub measured-SameCounts :
    (cpu_at : ℕ → ℕ) (e us : ℕ) (w : WindowStageStats) (rs : List Reading) (m : Measured)
    → measured_work_us cpu_at e us w rs ≡ some m
    → SameCounts w m.window
unfolding measured_work_us
measured-SameCounts cpu_at e us w [] m h = ground arith
measured-SameCounts cpu_at e us w (r ∷ rs) m h = elim (Bool-cases (e == 0)) [
  | inl k ↦ unmeasured-SameCounts cpu_at (cpu_at r.instant) w _ m (simp k at h)
  | inr k ↦ accounted-SameCounts w _ m (simp k at h)
]

-- What the work leaves alone.
pub record Worked (s v : StageStats) : Type 0 where
  pub same_processed : v.processed ≡ s.processed
  pub same_late : v.late ≡ s.late
  pub same_stale : v.stale_seen ≡ s.stale_seen
  pub same_dropped : v.dropped_stale ≡ s.dropped_stale
  pub same_window : SameCounts s.window v.window

note_work-Worked :
    (s v : StageStats) (o : Option Measured)
    → ((m : Measured) → o ≡ some m → SameCounts s.window m.window)
    → note_work s o ≡ some v
    → Worked s v
unfolding note_work
note_work-Worked s v none f h = ground arith
note_work-Worked s v (some m) f h =
    subst (λ x. Worked s x) (some-injective _ _ h)
      (record {
        same_processed = refl;
        same_late = refl;
        same_stale = refl;
        same_dropped = refl;
        same_window = f m refl;
      })

work-Worked :
    (cpu_at : ℕ → ℕ) (e us : ℕ) (rs : List Reading) (s v : StageStats)
    → work cpu_at e us rs s ≡ some v
    → Worked s v
unfolding work
work-Worked cpu_at e us rs s v h = elim (Bool-cases (us == 0)) [
  | inl k ↦
      subst (λ x. Worked s x) (some-injective _ _ (simp k at h))
        (record {
          same_processed = refl;
          same_late = refl;
          same_stale = refl;
          same_dropped = refl;
          same_window = (refl, refl, refl, refl, refl);
        })
  | inr k ↦
      note_work-Worked s v (measured_work_us cpu_at e us s.window rs)
        (λ m q. measured-SameCounts cpu_at e us s.window rs m q) (simp k at h)
]

pub inside_earlier : (e s t : ℕ) → s ≤ t → inside_window e t ≡ true → inside_window e s ≡ true
unfolding inside_window
inside_earlier e s t h k = ground arith

pub handle_cases {ℓ} :
    (P : Handled → Type ℓ) (cpu_at : ℕ → ℕ) (e : ℕ) (compute_us : WorkItem → ℕ) (cfg : StageCfg)
    (drop_stale : Bool) (t : Turn) (s : StageStats) (h : Handled)
    → handle cpu_at e compute_us cfg drop_stale t s ≡ some h
    → ((is_stale t.t0 t.item cfg && drop_stale) ≡ true
        → P (record { stats = note_drop e t.t0 (note_start e t.t0 true s); forwarded = none }))
    → ((v : StageStats)
        → (is_stale t.t0 t.item cfg && drop_stale) ≡ false
        → Worked (note_start e t.t0 (is_stale t.t0 t.item cfg) s) v
        → P (record {
          stats = note_end e (deadline_abs t.item cfg) t.t1 t.item v;
          forwarded = some t.item;
        }))
    → P h
unfolding handle ended
handle_cases P cpu_at e compute_us cfg drop_stale t s h q dropped done =
    let s1 = note_start e t.t0 (is_stale t.t0 t.item cfg) s in
    elim (Bool-cases (is_stale t.t0 t.item cfg && drop_stale)) [
      | inl k ↦
          let stale : is_stale t.t0 t.item cfg ≡ true = ground arith in
          subst P (some-injective _ _ (simp k at q)) (rw stale (dropped k))
      | inr k ↦
          let r = simp k at q in
          elim (Option-cases (work cpu_at e (compute_us t.item) t.readings s1)) [
            | inl o ↦ (let c = simp o at r in ground arith)
            | inr o ↦
                subst P (some-injective _ _ (simp (o.1) at r))
                  (done o.0 k (work-Worked cpu_at e (compute_us t.item) t.readings s1 o.0 o.1))
          ]
    ]

pub run_turns-cons :
    (cpu_at : ℕ → ℕ) (e : ℕ) (compute_us : WorkItem → ℕ) (cfg : StageCfg) (drop_stale : Bool)
    (t : Turn) (ts : List Turn) (s : StageStats) (r : Stage)
    → run_turns cpu_at e compute_us cfg drop_stale (t ∷ ts) s ≡ some r
    → (h : Handled) × (r1 : Stage) × (handle cpu_at e compute_us cfg drop_stale t s ≡ some h)
      × (run_turns cpu_at e compute_us cfg drop_stale ts h.stats ≡ some r1)
      × (r ≡ record { stats = r1.stats; worked = to_list h.forwarded ++ r1.worked })
unfolding run_turns send after_turn
run_turns-cons cpu_at e compute_us cfg drop_stale t ts s r q =
    elim (Option-cases (handle cpu_at e compute_us cfg drop_stale t s)) [
      | inl k ↦ (let c = simp k at q in ground arith)
      | inr k ↦
          let q1 = simp (k.1) at q in
          elim (Option-cases (run_turns cpu_at e compute_us cfg drop_stale ts k.0.stats)) [
            | inl l ↦ (let c = simp l at q1 in ground arith)
            | inr l ↦ (k.0, l.0, k.1, l.1, sym (some-injective _ _ (simp (l.1) at q1)))
          ]
    ]

-- The clock does not run backwards in a turn.
abbrev pub Forward : Turn → Type 0
Forward t = (t.popped ≤ t.t0) × (t.t0 ≤ t.t1)
