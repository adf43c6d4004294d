-- ===== src/Workload/Pipeline.antt =====
-- ros2/scx_slam_workload/src/slam_pipeline.cpp: profiles, the counters of a stage, percentiles, and
-- the synthetic sensors.
--
-- `std::sort` is an insertion sort. What the clocks show is an argument of the call that reads them;
-- `rclcpp::ok` is a list of its answers.
pub mod Profiles
pub mod Percentile
pub mod Periodic
pub mod Counters
pub mod Options
mod Tests
use scx_slam_fresh.Base.{
  ℕ, zero, suc, ◌+◌, ◌-◌, ◌*◌, ◌/◌, ◌<◌, Bool, true, false, not, ◌&&◌, List, [], ◌∷◌, ◌++◌, Option,
  none, some, ◌==◌, if◌then◌else◌, ltb, leb, length, add64, sub64, mul64, u64,
}
use scx_slam_fresh.Executor.Hint.{FreshAbi, CallbackProfile, default_profile}
use scx_slam_fresh.Workload.Ablation.{Mode, stage_imu_preint, stage_misc}
use scx_slam_fresh.Workload.Bag.{StampedJob}

unfoldable pub profile : FreshAbi → ℕ → ℕ → ℕ → ℕ → ℕ → CallbackProfile
profile abi stage class_id deadline_us stale_us budget_us = record (default_profile abi) {
  stage_id = stage;
  class_id = class_id;
  relative_deadline_ns = mul64 deadline_us 1000;
  stale_ns = mul64 stale_us 1000;
  budget_ns = mul64 budget_us 1000;
}

unfoldable pub stage_profile : FreshAbi → Mode → ℕ → ℕ → ℕ → ℕ → ℕ → CallbackProfile
stage_profile abi Mode.imu_only stage class_id deadline_us stale_us budget_us =
    if not (stage == stage_imu_preint)
    then profile abi stage_misc abi.class_background 0 0 0
    else profile abi stage class_id deadline_us stale_us budget_us
stage_profile abi Mode.fe_only stage class_id deadline_us stale_us budget_us =
    if stage == stage_imu_preint
    then profile abi stage_misc abi.class_deadline deadline_us stale_us budget_us
    else profile abi stage class_id deadline_us stale_us budget_us
stage_profile abi Mode.full stage class_id deadline_us stale_us budget_us =
    profile abi stage class_id deadline_us stale_us budget_us

-- `admission_profile` of `main`; the first argument is whether the input is external.
unfoldable pub admission_profile : FreshAbi → Bool → Mode → ℕ → ℕ → ℕ → ℕ → ℕ → CallbackProfile
admission_profile abi external mode stage class_id deadline_us stale_us budget_us =
    record (if external
      then profile abi stage class_id deadline_us stale_us budget_us
      else stage_profile abi mode stage class_id deadline_us stale_us budget_us) {
        reject_expired = external && not (stage == stage_imu_preint);
      }

unfoldable pub source_time_measured : ℕ → ℕ → ℕ → ℕ → Bool
source_time_measured source_ts_ns source_start_ns warmup_ns duration_ns =
    let start = add64 source_start_ns warmup_ns in
    leb start source_ts_ns && ltb source_ts_ns (add64 start duration_ns)

unfoldable pub insert : ℕ → List ℕ → List ℕ
insert v [] = v ∷ []
insert v (x ∷ xs) = let rest = insert v xs in if leb v x then v ∷ x ∷ xs else x ∷ rest

unfoldable pub sort : List ℕ → List ℕ
sort [] = []
sort (x ∷ xs) = insert x (sort xs)

-- `values[index]`; the code never reads past the end.
unfoldable pub value_at : ℕ → List ℕ → Option ℕ
value_at i [] = none
value_at zero (x ∷ xs) = some x
value_at (suc i) (x ∷ xs) = value_at i xs

unfoldable pub rank_99 : ℕ → ℕ
rank_99 size = sub64 (u64 (u64 (size * 99) + 99) / 100) 1

unfoldable pub percentile_99 : List ℕ → Option ℕ
percentile_99 [] = some 0
percentile_99 (x ∷ xs) = value_at (rank_99 (length (x ∷ xs))) (sort (x ∷ xs))

-- The counters of `StageStats` and its two vectors.
pub record StageStats : Type 0 where
  pub offered : ℕ
  pub arrivals : ℕ
  pub executed : ℕ
  pub dropped : ℕ
  pub upstream_dropped : ℕ
  pub active : Bool
  pub active_cpu_start : ℕ
  pub completed : ℕ
  pub late : ℕ
  pub stale : ℕ
  pub cpu_ns : ℕ
  pub first_job_id : ℕ
  pub last_job_id : ℕ
  pub first_source_ts_ns : ℕ
  pub last_source_ts_ns : ℕ
  pub start_ages_ns : List ℕ
  pub completion_ages_ns : List ℕ

unfoldable pub no_stats : StageStats
no_stats = record {
  offered = 0;
  arrivals = 0;
  executed = 0;
  dropped = 0;
  upstream_dropped = 0;
  active = false;
  active_cpu_start = 0;
  completed = 0;
  late = 0;
  stale = 0;
  cpu_ns = 0;
  first_job_id = 0;
  last_job_id = 0;
  first_source_ts_ns = 0;
  last_source_ts_ns = 0;
  start_ages_ns = [];
  completion_ages_ns = [];
}

-- The source audit's `offer`.
unfoldable pub offer : StampedJob → StageStats → StageStats
offer m s =
    let s1 = record s { offered = add64 s.offered 1 } in
    let s2 =
      if s1.first_job_id == 0
      then record s1 { first_job_id = m.id; first_source_ts_ns = m.source_ts_ns }
      else s1 in
    record s2 { last_job_id = m.id; last_source_ts_ns = m.source_ts_ns }

unfoldable pub age : ℕ → ℕ → ℕ
age now release = if ltb release now then sub64 now release else 0

-- The first critical section of `account_job`.
unfoldable pub begin_job : Bool → ℕ → StageStats → StageStats
begin_job measured cpu_start s =
    if measured
    then record s { executed = add64 s.executed 1; active = true; active_cpu_start = cpu_start }
    else s

-- The second one, after the work.
unfoldable pub end_job : Bool → ℕ → ℕ → ℕ → ℕ → ℕ → ℕ → StageStats → StageStats
end_job measured deadline_ns stale_ns release start now cpu_ns s =
    let start_age = age start release in
    let end_age = age now release in
    if not measured then s else record s {
      completed = add64 s.completed 1;
      late = if not (deadline_ns == 0) && ltb deadline_ns end_age then add64 s.late 1 else s.late;
      stale = if not (stale_ns == 0) && ltb stale_ns start_age then add64 s.stale 1 else s.stale;
      cpu_ns = add64 s.cpu_ns cpu_ns;
      active = false;
      start_ages_ns = s.start_ages_ns ++ (start_age ∷ []);
      completion_ages_ns = s.completion_ages_ns ++ (end_age ∷ []);
    }

-- The observer's counts on its own stage, and on each stage downstream of a drop.
unfoldable pub observe_selected : StageStats → StageStats
observe_selected s = record s { arrivals = add64 s.arrivals 1 }

unfoldable pub observe_dropped : StageStats → StageStats
observe_dropped s = record s { dropped = add64 s.dropped 1 }

unfoldable pub observe_upstream : StageStats → StageStats
observe_upstream s = record s { upstream_dropped = add64 s.upstream_dropped 1 }

-- The numbers that `print_stats` computes.
pub record Printed : Type 0 where
  pub unfinished : ℕ
  pub in_flight : ℕ
  pub pending : ℕ

unfoldable pub print_stats : ℕ → StageStats → Printed
print_stats offered s =
    let resolved = add64 (add64 s.completed s.dropped) s.upstream_dropped in
    let unfinished = if ltb resolved offered then sub64 offered resolved else 0 in
    let in_flight = sub64 s.executed s.completed in
    record {
      unfinished = unfinished;
      in_flight = in_flight;
      pending = if ltb in_flight unfinished then sub64 unfinished in_flight else 0;
    }

-- The loop of `publish_periodic`, by the messages that are left to offer.
unfoldable pub periodic_from : ℕ → ℕ → ℕ → ℕ → List Bool → List StampedJob
periodic_from zero index rate_hz start_ns oks = []
periodic_from (suc left) index rate_hz start_ns [] = []
periodic_from (suc left) index rate_hz start_ns (ok ∷ oks) =
    let rest = periodic_from left (add64 index 1) rate_hz start_ns oks in
    if ok
    then record {
      id = add64 index 1;
      release_ts_ns = add64 start_ns (mul64 index 1000000000 / rate_hz);
      source_ts_ns = 0;
    }
      ∷ rest
    else []

unfoldable pub publish_periodic : ℕ → ℕ → ℕ → List Bool → List StampedJob
publish_periodic rate_hz duration_s start_ns oks =
    periodic_from (mul64 rate_hz duration_s) 0 rate_hz start_ns oks
