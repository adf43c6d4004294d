-- ===== src/Demo/Window.antt =====
-- demo/window_metrics.h, `CpuWindowBounds`, and demo/slam_pipeline_demo.cpp, `measured_work_us`:
-- how much of a computation's CPU time falls before the end of the measurement window.
--
-- A reading is one turn of the loop: the wall clock before it, the instant at which the thread's
-- CPU clock is read, and the wall clock after it. `cpu_at` is that CPU clock, by wall time.
pub mod Bounds
mod Tests
use scx_slam_fresh.Base.{
  ℕ, ◌≡◌, Bool, true, false, List, [], ◌∷◌, Option, none, some, ◌==◌, if◌then◌else◌, leb, ltb,
  add64, sub64, mul64,
}

pub record CpuWindowBounds : Type 0 where
  pub cutoff_ns : ℕ
  pub lower_ns : ℕ
  pub upper_ns : ℕ
  pub closed : Bool

unfoldable pub sample : ℕ → ℕ → ℕ → CpuWindowBounds → CpuWindowBounds
sample cpu_elapsed wall_before wall_after b =
    if b.closed
    then b
    else (let b1 = if leb wall_after b.cutoff_ns then record b { lower_ns = cpu_elapsed } else b in
        if leb b1.cutoff_ns wall_before
        then record b1 { upper_ns = cpu_elapsed; closed = true }
        else b1)

unfoldable pub finish : ℕ → CpuWindowBounds → CpuWindowBounds
finish total_ns b = if b.closed then b else record b { upper_ns = total_ns }

pub record WindowStageStats : Type 0 where
  pub started : ℕ
  pub completed : ℕ
  pub late : ℕ
  pub stale_seen : ℕ
  pub dropped_stale : ℕ
  pub cpu_ns : ℕ
  pub cpu_uncertainty_ns : ℕ

pub record Reading : Type 0 where
  pub before : ℕ
  pub instant : ℕ
  pub after : ℕ

pub record Measured : Type 0 where
  pub elapsed : ℕ
  pub window : WindowStageStats

-- The `do`-`while` loop: it ends at the first reading that shows the work done. Once the bounds are
-- closed the code reads no wall clock, and `sample` would not look at it.
unfoldable pub sample_loop :
    (ℕ → ℕ) → ℕ → ℕ → CpuWindowBounds → List Reading → Option (ℕ × CpuWindowBounds)
sample_loop cpu_at start work_ns b [] = none
sample_loop cpu_at start work_ns b (r ∷ rs) =
    let elapsed = sub64 (cpu_at r.instant) start in
    let b1 = sample elapsed r.before r.after b in
    let rest = sample_loop cpu_at start work_ns b1 rs in
    if ltb elapsed work_ns then rest else some (elapsed, b1)

-- `busy_work_us`: what is left of the readings when it returns.
unfoldable pub busy_loop : (ℕ → ℕ) → ℕ → ℕ → List Reading → Option (List Reading)
busy_loop cpu_at start work_ns [] = none
busy_loop cpu_at start work_ns (r ∷ rs) =
    let rest = busy_loop cpu_at start work_ns rs in
    if ltb (sub64 (cpu_at r.instant) start) work_ns then rest else some rs

unfoldable pub busy_work_us : (ℕ → ℕ) → ℕ → List Reading → Option (List Reading)
busy_work_us cpu_at us [] = none
busy_work_us cpu_at us (r ∷ rs) = busy_loop cpu_at (cpu_at r.instant) (mul64 us 1000) rs

unfoldable pub open_bounds : ℕ → CpuWindowBounds
open_bounds cutoff = record { cutoff_ns = cutoff; lower_ns = 0; upper_ns = 0; closed = false }

-- The end of `measured_work_us`.
unfoldable pub account : WindowStageStats → ℕ × CpuWindowBounds → Measured
account w (elapsed, b) =
    let b1 = finish elapsed b in
    record {
      elapsed = elapsed;
      window = record w {
        cpu_ns = add64 w.cpu_ns b1.lower_ns;
        cpu_uncertainty_ns = add64 w.cpu_uncertainty_ns (sub64 b1.upper_ns b1.lower_ns);
      };
    }

-- With the instrumentation off: the work, and one more reading for what it took.
unfoldable pub unmeasured : (ℕ → ℕ) → ℕ → WindowStageStats → Option (List Reading) → Option Measured
unmeasured cpu_at start w none = none
unmeasured cpu_at start w (some []) = none
unmeasured cpu_at start w (some (r ∷ rs)) =
    some (record { elapsed = sub64 (cpu_at r.instant) start; window = w })

unfoldable pub accounted : WindowStageStats → Option (ℕ × CpuWindowBounds) → Option Measured
accounted w none = none
accounted w (some p) = some (account w p)

unfoldable pub measured_work_us :
    (ℕ → ℕ) → ℕ → ℕ → WindowStageStats → List Reading → Option Measured
measured_work_us cpu_at metrics_end_ns us w [] = none
measured_work_us cpu_at metrics_end_ns us w (r ∷ rs) =
    let start = cpu_at r.instant in
    if metrics_end_ns == 0
    then unmeasured cpu_at start w (busy_work_us cpu_at us rs)
    else accounted w (
        sample_loop cpu_at start (mul64 us 1000)
          (sample 0 r.before r.after (open_bounds metrics_end_ns)) rs)
