-- ===== src/Workload/Pipeline/Tests.antt =====
-- ros2/scx_slam_workload/src/slam_pipeline.cpp: small runs.
use scx_slam_fresh.Base.{
  ◌≡◌, refl, ℕ, ◌+◌, ◌-◌, ◌*◌, ◌≤◌, ◌<◌, List, [], ◌∷◌, true, some, length, arith,
}
use scx_slam_fresh.Executor.Hint.{FreshAbi, hint_of}
use scx_slam_fresh.Workload.Ablation.{Mode, project_hint}
use scx_slam_fresh.Workload.Bag.{StampedJob}
use scx_slam_fresh.Workload.Pipeline.Counters.{
  Flow, StageEvent, happen_all, after_event, print_stats_reports, happen, new_flow,
}
use scx_slam_fresh.Workload.Pipeline.{
  percentile_99, print_stats, publish_periodic, stage_profile, profile, rank_99, sort, insert,
  no_stats, value_at, offer, observe_selected, observe_dropped, observe_upstream, begin_job,
  end_job, age,
}
use scx_slam_fresh.Workload.Pipeline.Periodic.{Offered, publish_periodic_offers}
use scx_slam_fresh.Workload.Pipeline.Percentile.{
  count_at_most, count_below, percentile_is_nearest_rank,
}
use scx_slam_fresh.Workload.Pipeline.Profiles.{stage_profile_projects}

abbrev abi : FreshAbi
abi = record { stage_unspecified = 255; class_background = 0; class_deadline = 1; class_urgent = 2 }

stage_profile_projects_example :
    hint_of (stage_profile abi Mode.imu_only 1 1 33000 66000 12000) 4 1000
    ≡ project_hint abi (hint_of (profile abi 1 1 33000 66000 12000) 4 1000) Mode.imu_only
stage_profile_projects_example =
    stage_profile_projects abi Mode.imu_only 1 1 33000 66000 12000 4 1000

five : percentile_99 (30 ∷ 10 ∷ 50 ∷ 20 ∷ 40 ∷ []) ≡ some 50
unfolding percentile_99 rank_99 sort insert value_at
five = refl

abbrev values : List ℕ
values = 30 ∷ 10 ∷ 50 ∷ 20 ∷ 40 ∷ []

percentile_is_nearest_rank_example :
    (v : ℕ) × (percentile_99 values ≡ some v)
    × (99 * length values ≤ 100 * count_at_most v values)
    × (100 * count_below v values < 99 * length values)
percentile_is_nearest_rank_example =
    percentile_is_nearest_rank 30 (10 ∷ 50 ∷ 20 ∷ 40 ∷ []) (omega arith)

publish_periodic_offers_example :
    let js = publish_periodic 3 1 500 (true ∷ true ∷ true ∷ []) in
    (length js ≡ 3 * 1) × Offered 0 500 (500 + 1 * 1000000000) js
publish_periodic_offers_example =
    publish_periodic_offers 3 1 500 (true ∷ true ∷ true ∷ []) (omega arith) (omega arith)
      (omega arith) (omega arith) (refl, (refl, (refl, tt)))

abbrev job : ℕ → StampedJob
job n = record { id = n; release_ts_ns = n * 100; source_ts_ns = n * 100 }

-- Four jobs: one done, one dropped, one running, one not selected yet.
abbrev events : List StageEvent
events =
    StageEvent.offers (job 1)
    ∷ StageEvent.selects
    ∷ StageEvent.begins 0
    ∷ StageEvent.offers (job 2)
    ∷ StageEvent.ends 50 80 100 150 170 20
    ∷ StageEvent.selects
    ∷ StageEvent.drops
    ∷ StageEvent.offers (job 3)
    ∷ StageEvent.offers (job 4)
    ∷ StageEvent.selects
    ∷ StageEvent.begins 20
    ∷ []

abbrev at_end : Flow
at_end = record {
  stats = record {
    offered = 4;
    arrivals = 3;
    executed = 2;
    dropped = 1;
    upstream_dropped = 0;
    active = true;
    active_cpu_start = 20;
    completed = 1;
    late = 1;
    stale = 0;
    cpu_ns = 20;
    first_job_id = 1;
    last_job_id = 4;
    first_source_ts_ns = 100;
    last_source_ts_ns = 400;
    start_ages_ns = 50 ∷ [];
    completion_ages_ns = 70 ∷ [];
  };
  held = 0;
  running = 1;
}

events_happen : happen_all events new_flow ≡ some at_end
unfolding happen_all after_event happen new_flow no_stats offer observe_selected observe_dropped
    observe_upstream begin_job end_job age
events_happen = refl

print_stats_reports_example :
    let p = print_stats 4 at_end.stats in
    (p.in_flight ≡ 1) × (p.pending ≡ 4 - (3 + 0) + 0) × (p.unfinished ≡ p.pending + p.in_flight)
print_stats_reports_example =
    print_stats_reports events at_end events_happen (omega arith) (omega arith)
