-- ===== src/Workload/Pipeline/Profiles.antt =====
-- ros2/scx_slam_workload/src/slam_pipeline.cpp: withheld profiles and withheld hints agree.
use scx_slam_fresh.Base.{◌≡◌, refl, ℕ, ◌==◌, inl, inr, Bool-cases}
use scx_slam_fresh.Executor.Hint.{FreshAbi, hint_of, default_profile, add_saturating}
use scx_slam_fresh.Workload.Ablation.{Mode, project_hint, background_hint, stage_imu_preint}
use scx_slam_fresh.Workload.Pipeline.{stage_profile, profile}

-- In every mode, a hint made of the profile that `stage_profile` gives for a stage is the projection
-- of the hint made of the stage's own profile: the synthetic input, which withholds in the profile,
-- and the external one, which withholds in the sink, show the scheduler the same.
pub stage_profile_projects :
    (abi : FreshAbi) (m : Mode) (stage class_id deadline_us stale_us budget_us job release : ℕ)
    → hint_of (stage_profile abi m stage class_id deadline_us stale_us budget_us) job release
      ≡ project_hint abi
          (hint_of (profile abi stage class_id deadline_us stale_us budget_us) job release)
          m
unfolding stage_profile profile project_hint default_profile background_hint add_saturating
stage_profile_projects abi Mode.full stage class_id deadline_us stale_us budget_us job release =
    refl
stage_profile_projects abi Mode.imu_only stage class_id deadline_us stale_us budget_us job release =
    elim (Bool-cases (stage == stage_imu_preint)) [ inl k ↦ simp k | inr k ↦ simp k ]
stage_profile_projects abi Mode.fe_only stage class_id deadline_us stale_us budget_us job release =
    elim (Bool-cases (stage == stage_imu_preint)) [ inl k ↦ simp k | inr k ↦ simp k ]
