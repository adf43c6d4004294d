-- ===== src/Demo/Window/Tests.antt =====
-- demo/slam_pipeline_demo.cpp, `measured_work_us`: a computation across the end of the window.
use scx_slam_fresh.Base.{
  ◌≡◌, refl, ◌-◌, ◌+◌, ◌≤◌, ◌<◌, ◌^◌, ℕ, List, [], ◌∷◌, some, min, arith, add64, mul64, inl, inr,
}
use scx_slam_fresh.Demo.Window.{
  Measured, Reading, WindowStageStats, measured_work_us, sample_loop, sample, finish, account,
  accounted, open_bounds,
}
use scx_slam_fresh.Demo.Window.Bounds.{Monotone, Word64, measured_work_brackets, measured_work_ends}

-- A CPU clock that runs with the wall clock for the first million nanoseconds.
abbrev cpu_clock : ℕ → ℕ
cpu_clock t = min t 1000000

cpu_clock-Monotone : Monotone cpu_clock
cpu_clock-Monotone s t h = omega arith

cpu_clock-Word64 : Word64 cpu_clock
cpu_clock-Word64 t = omega arith

abbrev empty_window : WindowStageStats
empty_window = record {
  started = 0;
  completed = 0;
  late = 0;
  stale_seen = 0;
  dropped_stale = 0;
  cpu_ns = 0;
  cpu_uncertainty_ns = 0;
}

abbrev reading : ℕ → Reading
reading t = record { before = t - 10; instant = t; after = t + 10 }

abbrev later : List Reading
later = reading 1000 ∷ reading 2000 ∷ reading 3200 ∷ []

-- The window ends at 2500: 1900 ns are sure, and up to 1200 more are not.
abbrev measured : Measured
measured = record {
  elapsed = 3100;
  window = record empty_window { cpu_ns = 1900; cpu_uncertainty_ns = 1200 };
}

returns_measured :
    measured_work_us cpu_clock 2500 3 empty_window (reading 100 ∷ later) ≡ some measured
unfolding measured_work_us sample_loop sample finish account accounted open_bounds
returns_measured = refl

measured_work_brackets_example :
    let used = min 2500 (100 + 3100) - 100 in
    (mul64 3 1000 ≤ 3100)
    × ((sure : ℕ) × (unsure : ℕ) × (1900 ≡ add64 0 sure)
        × (1200 ≡ add64 0 unsure)
        × (sure ≤ used)
        × (used ≤ sure + unsure)
        × (sure + unsure ≤ 3100))
    × (3100 < 2 ^ 64)
measured_work_brackets_example =
    measured_work_brackets cpu_clock 2500 3 empty_window (reading 100) later measured
      cpu_clock-Monotone cpu_clock-Word64 (omega arith)
      (
        omega arith,
        omega arith,
        omega arith,
        (
          omega arith,
          omega arith,
          omega arith,
          (omega arith, omega arith, omega arith, (omega arith, omega arith, omega arith, tt)),
        ),
      )
      returns_measured

measured_work_ends_example :
    (m : Measured) × (measured_work_us cpu_clock 2500 3 empty_window (reading 100 ∷ later) ≡ some m)
measured_work_ends_example =
    measured_work_ends cpu_clock 2500 3 empty_window (reading 100) later (omega arith)
      (inr (inr (inl (omega arith))))
