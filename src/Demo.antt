-- ===== src/Demo.antt =====
-- demo/slam_pipeline_demo.cpp and demo/window_metrics.h: work items, stage configurations and the
-- two tests on an item's age.
pub mod Window
pub mod Queue
pub mod Stage
pub mod Sensors
pub mod Options
use scx_slam_fresh.Base.{ℕ, ◌-◌, Bool, true, false, ◌&&◌, ltb, ◌==◌, if◌then◌else◌, add64, sub64}

pub record WorkItem : Type 0 where
  pub seq : ℕ
  pub ts_ns : ℕ
  pub kind : ℕ
  pub points : ℕ
  pub burst_id : ℕ

-- `StageCfg`, without the thread's name.
pub record StageCfg : Type 0 where
  pub stage_id : ℕ
  pub class_id : ℕ
  pub deadline_rel_ns : ℕ
  pub stale_ns : ℕ
  pub budget_ns : ℕ
  pub slice_ns : ℕ
  pub weight : ℕ

unfoldable pub deadline_abs : WorkItem → StageCfg → ℕ
deadline_abs w cfg = if cfg.deadline_rel_ns == 0 then 0 else add64 w.ts_ns cfg.deadline_rel_ns

unfoldable pub is_stale : ℕ → WorkItem → StageCfg → Bool
is_stale now w cfg =
    if cfg.stale_ns == 0 then false else (ltb w.ts_ns now && ltb cfg.stale_ns (sub64 now w.ts_ns))

-- `metrics_end_ns` is 0 where the instrumentation is off.
unfoldable pub inside_window : ℕ → ℕ → Bool
inside_window metrics_end_ns timestamp =
    if metrics_end_ns == 0 then false else ltb timestamp metrics_end_ns
