-- ===== src/Demo/Sensors/Tests.antt =====
-- demo/slam_pipeline_demo.cpp: the sensors of a run of one second.
use scx_slam_fresh.Base.{ℕ, zero, suc, ◌≡◌, refl, true, List, [], ◌∷◌, some, arith}
use scx_slam_fresh.Demo.{StageCfg}
use scx_slam_fresh.Demo.Sensors.{
  Tick, burst_delivery_index, burst_fits, camera_frame_count, Camera, camera_loop, end_of,
  camera_start,
}
use scx_slam_fresh.Demo.Sensors.Delivery.{frames, camera_delivers_all}

-- Six frames around 200 ms come together.
six_fit : burst_fits 1 6 200 ≡ true
unfolding burst_fits burst_delivery_index camera_frame_count
six_fit = refl

frame_count_is_31 : camera_frame_count 1 ≡ 31
unfolding camera_frame_count
frame_count_is_31 = refl

camera_delivers_all_example :
    let delivery = burst_delivery_index 200 in
    (c : Camera) × (camera_loop 40 6 delivery (end_of 1000 1) (camera_start 1000) ≡ some c)
    × (c.pushed ≡ frames 6 delivery 1000 (camera_frame_count 1))
    × (c.generated ≡ camera_frame_count 1)
    × (c.held_burst ≡ [])
camera_delivers_all_example =
    camera_delivers_all 1000 1 6 200 40 (omega arith) (omega arith) (omega arith) six_fit
      (unfold camera_frame_count in omega arith)

abbrev imu_cfg : StageCfg
imu_cfg = record {
  stage_id = 0;
  class_id = 2;
  deadline_rel_ns = 5000000;
  stale_ns = 10000000;
  budget_ns = 300000;
  slice_ns = 0;
  weight = 0;
}

abbrev cpu_clock : ℕ → ℕ
cpu_clock t = t

abbrev tick : Tick
tick = record {
  t0 = 1000;
  t1 = 1500;
  readings =
      record { before = 0; instant = 100; after = 200 }
      ∷ record { before = 300; instant = 1200; after = 1300 }
      ∷ [];
}

ticks : ℕ → List Tick
ticks zero = []
ticks (suc n) = tick ∷ ticks n
