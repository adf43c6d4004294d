-- ===== src/Executor/Hint/Tests.antt =====
-- ros2/scx_slam_executor/src/freshness_executor.cpp: the hint laws at concrete values.
use scx_slam_fresh.Base.{◌≡◌, ◌≢◌, ◌↔◌, true, some, arith, ◌≤◌}
use scx_slam_fresh.Executor.Hint.{CallbackProfile, MessageMetadata, make_hint}
use scx_slam_fresh.Executor.Hint.Laws.{make_hint_deadline}

abbrev imu_profile : CallbackProfile
imu_profile = record {
  stage_id = 0;
  class_id = 2;
  relative_deadline_ns = 5000000;
  stale_ns = 10000000;
  budget_ns = 1000000;
  slice_ns = 0;
  weight = 0;
  reject_expired = true;
}

abbrev job : MessageMetadata
job = record { job_id = 4; release_ts_ns = 1000 }

make_hint_deadline_example :
    let h = (make_hint imu_profile (some job) 0 1).0 in
    ((h.deadline_ts_ns ≡ 0) ↔ (imu_profile.relative_deadline_ns ≡ 0))
    × (imu_profile.relative_deadline_ns ≢ 0 → h.release_ts_ns ≤ h.deadline_ts_ns)
make_hint_deadline_example =
    make_hint_deadline imu_profile (some job) 0 1 (unfold make_hint in omega arith) (omega arith)
