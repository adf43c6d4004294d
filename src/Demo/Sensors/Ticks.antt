-- ===== src/Demo/Sensors/Ticks.antt =====
-- demo/slam_pipeline_demo.cpp, `imu_thread`: one job for each period of the run.
use scx_slam_fresh.Base.{suc, zero, ℕ, ◌+◌, ◌*◌, [], ◌∷◌, List, ◌≡◌, mul64}
use scx_slam_fresh.Demo.{StageCfg}
use scx_slam_fresh.Demo.Sensors.{Tick, imu_hint}
use scx_slam_fresh.Demo.Window.{Reading}
use scx_slam_fresh.Demo.Queue.{Publication}
use scx_slam_fresh.Demo.Window.Bounds.{Suffices}

-- The jobs of `n` periods of 5 ms, from the period `k` on.
unfoldable pub imu_hints : ℕ → StageCfg → ℕ → ℕ → ℕ → List Publication
imu_hints self cfg start k zero = []
imu_hints self cfg start k (suc n) =
    imu_hint self cfg (k + 1) (start + k * 5000000) ∷ imu_hints self cfg start (suc k) n

-- The readings of a tick show the asked-for CPU time after the first.
abbrev pub Measures : (ℕ → ℕ) → ℕ → Tick → Type 0
Measures cpu_at work_us t =
    (r : Reading) × (rs : List Reading) × (t.readings ≡ r ∷ rs)
    × Suffices cpu_at (cpu_at r.instant) (mul64 work_us 1000) rs
