-- ===== src/Workload/Ablation.antt =====
-- ros2/scx_slam_workload, include/scx_slam_workload/hint_ablation.hpp and hog_metrics.hpp, with the
-- stage numbers of ros2/scx_slam_executor/include/scx_slam_executor/application_stages.hpp.
pub mod Laws
mod Tests
use scx_slam_fresh.Base.{
  ℕ, suc, ◌+◌, Bool, true, false, not, ◌&&◌, List, [], ◌∷◌, ◌==◌, if◌then◌else◌, ltb, leb, sub64,
}
use scx_slam_fresh.Executor.Hint.{FreshAbi, Hint}

abbrev pub stage_imu_preint : ℕ
stage_imu_preint = 0

abbrev pub stage_misc : ℕ
stage_misc = 15

-- The two modes that withhold something, and every other string.
pub data Mode : Type 0 where
  imu_only fe_only full : Mode

unfoldable pub background_hint : FreshAbi → Hint → Hint
background_hint abi hint = record hint {
  stage_id = stage_misc;
  class_id = abi.class_background;
  deadline_ts_ns = 0;
  stale_ns = 0;
  budget_ns = 0;
  slice_ns = 0;
  weight = 0;
}

unfoldable pub project_hint : FreshAbi → Hint → Mode → Hint
project_hint abi hint Mode.imu_only =
    if not (hint.stage_id == stage_imu_preint) then background_hint abi hint else hint
project_hint abi hint Mode.fe_only =
    if hint.stage_id == stage_imu_preint
    then record hint { stage_id = stage_misc; class_id = abi.class_deadline }
    else hint
project_hint abi hint Mode.full = hint

-- What a sink is asked to do; `AblationHintSink` passes it on to another sink.
pub data SinkCall : Type 0 where
  publishes : ℕ → Hint → SinkCall
  clears : ℕ → SinkCall

unfoldable pub ablate : FreshAbi → Mode → SinkCall → SinkCall
ablate abi mode (SinkCall.publishes worker hint) =
    SinkCall.publishes worker (project_hint abi hint mode)
ablate abi mode (SinkCall.clears worker) = SinkCall.clears worker

-- `std::lower_bound` on the whole vector, as a distance from its beginning: how many elements come
-- before the first that is not less than the value.
unfoldable pub lower_bound : List ℕ → ℕ → ℕ
lower_bound [] value = 0
lower_bound (c ∷ cs) value = let rest = lower_bound cs value in if ltb c value then suc rest else 0

-- hog_metrics.hpp.
unfoldable pub window_iterations : List ℕ → ℕ → ℕ → ℕ
window_iterations completions start end_ns =
    sub64 (lower_bound completions end_ns) (lower_bound completions start)
