-- ===== src/Demo/Options/Tests.antt =====
-- demo/slam_pipeline_demo.cpp: command lines.
use scx_slam_fresh.Base.{
  ◌-◌, ◌^◌, ◌≡◌, refl, true, false, List, [], ◌∷◌, some, ok, err, Text, codes, pos, negsuc,
  strtoull, strtol,
}
use scx_slam_fresh.Demo.Sensors.{burst_fits, burst_delivery_index, camera_frame_count}
use scx_slam_fresh.Demo.Options.{
  Options, default_options, to_int, atoi, read_us, start_options, check_options, usage, imu_work,
  vision_work, burst_outside,
}
use scx_slam_fresh.Demo.Options.Ranges.{Accepted, demo_options_in_range}

abbrev burst_line : List Text
burst_line =
    codes "--pin"
    ∷ codes "/sys/fs/bpf/qos"
    ∷ codes "--camera-burst-count"
    ∷ codes "6"
    ∷ codes "--vision-budget-us"
    ∷ codes "1000"
    ∷ codes "--hog"
    ∷ codes " 2x"
    ∷ []

abbrev burst_options : Options
burst_options = record default_options {
  pin_dir = some (codes "/sys/fs/bpf/qos");
  camera_burst_count = pos 6;
  vision_budget_us = 1000;
  hog_n = pos 2;
}

burst_accepted : start_options burst_line ≡ ok burst_options
unfolding start_options atoi to_int read_us strtoull strtol check_options burst_fits
    burst_delivery_index camera_frame_count
burst_accepted = refl

demo_options_in_range_example : Accepted burst_options
demo_options_in_range_example = demo_options_in_range burst_line burst_accepted

-- The bound that every other number of microseconds has is not tested for the vision work, and a
-- minus sign is read.
negative_work : read_us false false vision_work (codes "-1") ≡ ok (2 ^ 64 - 1)
unfolding read_us strtoull
negative_work = refl

negative_imu_work : read_us true true imu_work (codes "-1") ≡ err imu_work
unfolding read_us strtoull
negative_imu_work = refl

int_wraps : (atoi (codes "4294967295") ≡ negsuc 0) × (atoi (codes "-4294967295") ≡ pos 1)
unfolding atoi to_int strtol
int_wraps = (refl, refl)

no_pin : start_options [] ≡ err usage
unfolding start_options check_options
no_pin = refl

too_many_frames :
    start_options (codes "--no-hints" ∷ codes "--camera-burst-count" ∷ codes "93" ∷ [])
    ≡ err burst_outside
unfolding start_options atoi to_int read_us strtoull strtol check_options burst_fits
    burst_delivery_index camera_frame_count
too_many_frames = refl
